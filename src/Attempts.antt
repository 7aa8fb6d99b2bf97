-- ===== src/Attempts.antt =====
-- src/proxy/fallback.rs: the models that a request may be answered by, and the attempts on them. The
-- rewriting of a request is the parameter `resolve` (Attempts/Request has the source's): from whether the payload is the original one
-- and the requested name, the actual model and its project, none where the rewritten request names no
-- model, or the message of a refusal.
pub mod Candidates
pub mod Loop
pub mod Request
mod Examples
use hey_proxy.Base.{
  ℕ, zero, suc, String, Bool, true, false, ◌&&◌, ◌||◌, Option, none, some, List, [], ◌∷◌, ◌++◌,
  ◌==◌, if◌then◌else◌, any, is_empty, length, str_eq, Result, ok, err,
}
use hey_proxy.Fallback.Rules.{Fallbacks, max_attempts, targets}

pub record Candidate : Type 0 where
  pub requested : String
  pub actual : String

-- An actual model and its project.
abbrev pub Identity : Type 0
Identity = String × String

pub record Planning : Type 0 where
  pub seen : List Identity
  pub candidates : List Candidate

abbrev pub empty : Planning
empty = record { seen = []; candidates = [] }

pub data PlanError : Type 0 where
  message : String → PlanError
  out_of_fuel : PlanError

abbrev pub Planned : Type 0
Planned = Result PlanError Planning

abbrev pub same_identity : Identity → Identity → Bool
same_identity (actual, project) (other, its_project) =
    str_eq actual other && str_eq project its_project

abbrev pub is_seen : Identity → List Identity → Bool
is_seen identity seen = any (same_identity identity) seen

abbrev pub add : String → Identity → Planning → Planning
add requested (actual, project) s = record {
  seen = s.seen ++ (actual, project) ∷ [];
  candidates = s.candidates ++ record { requested = requested; actual = actual } ∷ [];
}

module _ (fallbacks : Fallbacks) where
  -- What a candidate's rewriting leads to; `next` is the loop behind a new candidate, `skipped` the loop
  -- without this one.
  abbrev pub on_resolved :
      (List String → Planning → Planned)
      → Planned
      → String
      → List String
      → Planning
      → Result String (Option Identity)
      → Planned
  on_resolved next skipped requested pending s (err text) = err (message text)
  on_resolved next skipped requested pending s (ok none) = ok s
  on_resolved next skipped requested pending s (ok (some identity)) =
      if is_seen identity s.seen
      then skipped
      else next (targets fallbacks identity.0 ++ pending) (add requested identity s)

module _ (resolve : Bool → String → Result String (Option Identity)) (fallbacks : Fallbacks) where
  -- The loop of `plan` up to the next new candidate. The top of the stack `pending` is the head of the list.
  unfoldable pub pop : (List String → Planning → Planned) → List String → Planning → Planned
  pop next [] s = ok s
  pop next (requested ∷ pending) s =
      let skipped = pop next pending s in
      if length s.candidates == max_attempts
      then ok s
      else on_resolved fallbacks next skipped requested pending s
          (resolve (is_empty s.candidates) requested)

  unfoldable pub plan_loop : ℕ → List String → Planning → Planned
  plan_loop zero pending s = err out_of_fuel
  plan_loop (suc fuel) pending s = pop (plan_loop fuel) pending s

  -- `original["model"]` as a text, or none
  unfoldable pub plan : Option String → Planned
  plan none = ok empty
  plan (some model) = plan_loop (suc max_attempts) (model ∷ []) empty

-- `reason.is_none() || index + 1 == candidates.len()`
abbrev pub is_final : Option String → List Candidate → Bool
is_final none rest = true
is_final (some reason) rest = is_empty rest

-- The loop of `forward`: the response that it returns, and the index of its candidate. `attempt` forwards
-- the request to a candidate and inspects the response; its reason tells why that is a refusal.
module _ {Response : Type 0} (attempt : ℕ → Candidate → Response × Option String) where
  unfoldable pub attempts : ℕ → List Candidate → Option (Response × ℕ)
  attempts index [] = none
  attempts index (candidate ∷ rest) =
      let (response, reason) = attempt index candidate in
      let later = attempts (suc index) rest in
      if is_final reason rest then some (response, index) else later
