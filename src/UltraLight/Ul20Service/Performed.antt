-- ===== src/UltraLight/Ul20Service/Performed.antt =====
-- src/ultra_light/ul20_service.cc: actions one after the other, up to the first one that throws.
use fiware_io_tagent_cpluspl.Common.{
  Bytes, str_eq, Bool, not, Option, none, some, List, [], ◌∷◌, ◌++◌, ◌≡◌, ◌⊎◌, inl, inr, refl,
  is_empty, if-both, All, All-append, ◌||◌,
}
use fiware_io_tagent_cpluspl.Common.Outcome.{
  Outcome, returned, iota_exception, runtime_error, bad_cast, undefined, out_of_fuel, ◌>>=◌,
}
use fiware_io_tagent_cpluspl.Common.Int.{ℤ}
use fiware_io_tagent_cpluspl.Device.{Device}
use fiware_io_tagent_cpluspl.FuncUtil.Names.{check_forbidden_characters}
use fiware_io_tagent_cpluspl.IotUrl.{new_iot_url}
use fiware_io_tagent_cpluspl.IotUrl.Refusal.{new_iot_url-IsAnswer}
use fiware_io_tagent_cpluspl.MediaFilter.{iota_forbidden_characters}
use fiware_io_tagent_cpluspl.Ngsi.ContextElement.{Service}
use fiware_io_tagent_cpluspl.UltraLight.Ul20Service.Request.{
  Query, Action, update_endpoint, begun, perform_all, then_do, move_endpoint, checked_endpoint,
  device_for, perform_outcome,
}

abbrev pub IsMeaningful {ℓ} : {A : Type ℓ} → Outcome A → Type 0
IsMeaningful undefined = ⊥
IsMeaningful out_of_fuel = ⊥
IsMeaningful o = Unit

abbrev pub IsThrown {ℓ} : {A : Type ℓ} → Outcome A → Type 0
IsThrown (returned a) = ⊥
IsThrown undefined = ⊥
IsThrown out_of_fuel = ⊥
IsThrown o = Unit

-- The storing of a new endpoint.
abbrev pub IsLocal : Action → Type 0
IsLocal (update_endpoint endpoint) = Unit
IsLocal a = ⊥

module _ (ends : Action → Outcome (Unit {0})) where
  abbrev pub Ended : Action → Type 0
  Ended a = ends a ≡ returned tt

  -- The last action threw, and the ones before it returned.
  abbrev pub IsStopped : List Action → Type 0
  IsStopped [] = ⊥
  IsStopped (a ∷ []) = IsThrown (ends a)
  IsStopped (a ∷ b ∷ actions) = Ended a × IsStopped (b ∷ actions)

  -- Without an exception all actions returned; with one, either an action threw, or the actions that
  -- were done are endpoints that were stored.
  abbrev pub IsDone : List Action × Outcome (Unit {0}) → Type 0
  IsDone (actions, returned u) = All Ended actions
  IsDone (actions, undefined) = ⊥
  IsDone (actions, out_of_fuel) = ⊥
  IsDone (actions, thrown) = All IsLocal actions ⊎ IsStopped actions

  -- As it is of a run of actions alone.
  abbrev pub IsRun : List Action × Outcome (Unit {0}) → Type 0
  IsRun (actions, returned u) = All Ended actions
  IsRun (actions, undefined) = ⊥
  IsRun (actions, out_of_fuel) = ⊥
  IsRun (actions, thrown) = IsStopped actions

  later_stop :
      (a : Action) (actions : List Action) → Ended a → IsStopped actions → IsStopped (a ∷ actions)
  later_stop a [] e h = absurd h
  later_stop a (b ∷ actions) e h = (e, h)

  begun-IsRun :
      (a : Action) (end : Outcome (Unit {0})) (rest : List Action × Outcome (Unit {0}))
      → ends a ≡ end
      → IsMeaningful end
      → IsRun rest
      → IsRun (begun a end rest)
  unfolding begun
  begun-IsRun a (returned tt) (actions, returned u) e ok h = (e, h)
  begun-IsRun a (returned tt) (actions, undefined) e ok h = h
  begun-IsRun a (returned tt) (actions, out_of_fuel) e ok h = h
  begun-IsRun a (returned tt) (actions, iota_exception r d c) e ok h = later_stop a actions e h
  begun-IsRun a (returned tt) (actions, runtime_error what) e ok h = later_stop a actions e h
  begun-IsRun a (returned tt) (actions, bad_cast) e ok h = later_stop a actions e h
  begun-IsRun a undefined rest e ok h = ok
  begun-IsRun a out_of_fuel rest e ok h = ok
  begun-IsRun a (iota_exception r d c) rest e ok h = rw e tt
  begun-IsRun a (runtime_error what) rest e ok h = rw e tt
  begun-IsRun a bad_cast rest e ok h = rw e tt

  pub perform_all-IsRun :
      (actions : List Action)
      → ((a : Action) → IsMeaningful (ends a))
      → IsRun (perform_all ends actions)
  unfolding perform_all
  perform_all-IsRun [] ok = tt
  perform_all-IsRun (a ∷ actions) ok =
      begun-IsRun a (ends a) (perform_all ends actions) refl (ok a) (perform_all-IsRun actions ok)

  IsDone-of_IsRun : (r : List Action × Outcome (Unit {0})) → IsRun r → IsDone r
  IsDone-of_IsRun (actions, returned u) h = h
  IsDone-of_IsRun (actions, undefined) h = h
  IsDone-of_IsRun (actions, out_of_fuel) h = h
  IsDone-of_IsRun (actions, iota_exception r d c) h = inr h
  IsDone-of_IsRun (actions, runtime_error what) h = inr h
  IsDone-of_IsRun (actions, bad_cast) h = inr h

  pub perform_outcome-IsDone :
      (o : Outcome (List Action))
      → ((a : Action) → IsMeaningful (ends a))
      → IsMeaningful o
      → IsDone (perform_outcome ends o)
  unfolding perform_outcome
  perform_outcome-IsDone (returned actions) each ok =
      IsDone-of_IsRun (perform_all ends actions) (perform_all-IsRun actions each)
  perform_outcome-IsDone undefined each ok = ok
  perform_outcome-IsDone out_of_fuel each ok = ok
  perform_outcome-IsDone (iota_exception r d c) each ok = inl tt
  perform_outcome-IsDone (runtime_error what) each ok = inl tt
  perform_outcome-IsDone bad_cast each ok = inl tt

  begun-All :
      (P : Action → Type 0) (a : Action) (end : Outcome (Unit {0}))
      (rest : List Action × Outcome (Unit {0}))
      → P a
      → All P rest.0
      → All P (begun a end rest).0
  unfolding begun
  begun-All P a (returned u) (actions, last) h hs = (h, hs)
  begun-All P a undefined rest h hs = (h, tt)
  begun-All P a out_of_fuel rest h hs = (h, tt)
  begun-All P a (iota_exception r d c) rest h hs = (h, tt)
  begun-All P a (runtime_error what) rest h hs = (h, tt)
  begun-All P a bad_cast rest h hs = (h, tt)

  -- Only what is given is done.
  pub perform_all-All :
      (P : Action → Type 0) (actions : List Action)
      → All P actions
      → All P (perform_all ends actions).0
  unfolding perform_all
  perform_all-All P [] h = tt
  perform_all-All P (a ∷ actions) h =
      begun-All P a (ends a) (perform_all ends actions) h.0 (perform_all-All P actions h.1)

  stop_behind :
      (actions more : List Action)
      → All Ended actions
      → IsStopped more
      → IsStopped (actions ++ more)
  stop_behind [] more h stopped = stopped
  stop_behind (a ∷ actions) more h stopped =
      later_stop a (actions ++ more) h.0 (stop_behind actions more h.1 stopped)

  done_behind :
      (actions more : List Action)
      → All IsLocal actions
      → All Ended actions
      → All IsLocal more ⊎ IsStopped more
      → All IsLocal (actions ++ more) ⊎ IsStopped (actions ++ more)
  done_behind actions more local h (inl others) = inl (All-append IsLocal actions more local others)
  done_behind actions more local h (inr stopped) = inr (stop_behind actions more h stopped)

  pub then_do-IsDone :
      (first rest : List Action × Outcome (Unit {0}))
      → All IsLocal first.0
      → IsRun first
      → IsDone rest
      → IsDone (then_do first rest)
  unfolding then_do
  then_do-IsDone (actions, returned tt) (more, returned u) local h g =
      All-append Ended actions more h g
  then_do-IsDone (actions, returned tt) (more, undefined) local h g = g
  then_do-IsDone (actions, returned tt) (more, out_of_fuel) local h g = g
  then_do-IsDone (actions, returned tt) (more, iota_exception r d c) local h g =
      done_behind actions more local h g
  then_do-IsDone (actions, returned tt) (more, runtime_error what) local h g =
      done_behind actions more local h g
  then_do-IsDone (actions, returned tt) (more, bad_cast) local h g =
      done_behind actions more local h g
  then_do-IsDone (actions, undefined) rest local h g = h
  then_do-IsDone (actions, out_of_fuel) rest local h g = h
  then_do-IsDone (actions, iota_exception r d c) rest local h g = inr h
  then_do-IsDone (actions, runtime_error what) rest local h g = inr h
  then_do-IsDone (actions, bad_cast) rest local h g = inr h

abbrev pub IsMoved : Outcome (Device × List Action) → Type 0
IsMoved (returned (dev, moved)) = All IsLocal moved
IsMoved undefined = ⊥
IsMoved out_of_fuel = ⊥
IsMoved o = Unit

move_endpoint-IsMoved :
    (is_mongo : Bool) (q : Query) (dev : Device) → IsMoved (returned (move_endpoint is_mongo q dev))
unfolding move_endpoint
move_endpoint-IsMoved is_mongo q dev =
    if-both (λ (m : Device × List Action). IsMoved (returned m))
      (is_empty dev.endpoint || str_eq dev.endpoint q.new_endpoint) _ _ (λ _. tt)
      (λ _. if-both (All IsLocal) is_mongo _ _ (λ _. (tt, tt)) (λ _. tt))

-- A URL is read, or an exception thrown.
checked_url-IsMoved :
    (is_mongo : Bool) (q : Query) (dev : Device) (atoi : Bytes → ℤ) (url : Bytes)
    → IsMoved (new_iot_url atoi url >>= checked_endpoint is_mongo q dev)
unfolding checked_endpoint
checked_url-IsMoved is_mongo q dev atoi url = elim (new_iot_url-IsAnswer atoi url) [
  | inl (parts, (u, read, named)) ↦ rw read (
      if-both IsMoved (is_empty u.host || is_empty u.protocol) _ _ (λ _. tt)
        (λ _. move_endpoint-IsMoved is_mongo q dev))
  | inr (missing, (reason, details, thrown)) ↦ rw thrown tt
]

pub device_for-IsMoved :
    (atoi : Bytes → ℤ) (is_mongo : Bool) (q : Query) (s : Service) (found : Option Device)
    → IsMoved (device_for atoi is_mongo q s found)
unfolding device_for
device_for-IsMoved atoi is_mongo q s none = tt
device_for-IsMoved atoi is_mongo q s (some dev) =
    if-both IsMoved (not q.url_update) _ _ (λ _. tt)
      (λ _.
        if-both IsMoved (check_forbidden_characters iota_forbidden_characters q.new_endpoint) _ _
          (λ _. tt) (λ _. checked_url-IsMoved is_mongo q dev atoi q.new_endpoint))
