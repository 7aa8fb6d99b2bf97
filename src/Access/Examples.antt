-- ===== src/Access/Examples.antt =====
-- The keys of a host with one client, and the tests of what is accepted.
use hey_proxy.Base.{true, false, [], ◌∷◌, ◌≡◌, ◌↔◌, refl, Memᴰ}
use hey_proxy.Base.Text.{codes}
use hey_proxy.Access.{Keys, accepts}
use hey_proxy.Access.Equal.{accepts_iff, client_keys}

abbrev host : Keys
host = record { local = codes "hp_00"; clients = (codes "codex", codes "hp_01") ∷ [] }

runs :
    (accepts host (codes "hp_01") ≡ true)
    × (accepts host (codes "hp_0") ≡ false)
    × (accepts host (codes "hp_001") ≡ false)
    × (accepts host [] ≡ false)
runs = (refl, refl, refl, refl)

accepts_iff_example :
    (accepts host (codes "hp_01") ≡ true)
    ↔ Memᴰ (codes "hp_01") (host.local ∷ client_keys host.clients)
accepts_iff_example = accepts_iff host (codes "hp_01")
