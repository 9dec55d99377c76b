-- ===== src/UltraLight/Ul20Service/Delivered.antt =====
-- CommandHandle::get_all_command of src/rest/command_handle.cc: what a request does for its commands.
use fiware_io_tagent_cpluspl.Common.{
  Bool, true, false, Option, none, some, List, [], ◌∷◌, map, ◌≡◌, refl, All, All-append,
}
use fiware_io_tagent_cpluspl.Common.Outcome.{
  Outcome, returned, iota_exception, runtime_error, bad_cast, undefined, out_of_fuel, ◌>>=◌,
}
use fiware_io_tagent_cpluspl.Device.{Device}
use fiware_io_tagent_cpluspl.Ngsi.ContextElement.{Service}
use fiware_io_tagent_cpluspl.UltraLight.Ul20Service.Request.{
  Action, deliver, mark_delivered, publish_delivered, perform_all,
}
use fiware_io_tagent_cpluspl.UltraLight.Ul20Service.Answer.{
  Waiting, tell_delivered, deliveries, deliver_all, get_all_command, Searches, asked_commands,
}
use fiware_io_tagent_cpluspl.UltraLight.Ul20Service.Performed.{
  IsMeaningful, IsRun, perform_all-All, perform_all-IsRun,
}

-- The handing out of a command.
abbrev pub IsDelivery : Action → Type 0
IsDelivery (deliver id) = Unit
IsDelivery (mark_delivered id) = Unit
IsDelivery (publish_delivered name) = Unit
IsDelivery a = ⊥

tell_delivered-IsDelivery : (waiting : List Waiting) → All IsDelivery (tell_delivered waiting)
unfolding tell_delivered
tell_delivered-IsDelivery [] = tt
tell_delivered-IsDelivery (w ∷ waiting) = (tt, (tt, tell_delivered-IsDelivery waiting))

map-IsDelivery :
    (waiting : List Waiting) → All IsDelivery (map (λ (w : Waiting). deliver w.id) waiting)
map-IsDelivery [] = tt
map-IsDelivery (w ∷ waiting) = (tt, map-IsDelivery waiting)

deliveries-IsDelivery : (waiting : List Waiting) → All IsDelivery (deliveries waiting)
unfolding deliveries
deliveries-IsDelivery waiting =
    All-append IsDelivery _ _ (map-IsDelivery waiting) (tell_delivered-IsDelivery waiting)

-- The commands are there, or their search threw and was asked for.
abbrev pub IsFound : Bool → Outcome (List Waiting) → Type 0
IsFound asked (returned waiting) = Unit
IsFound asked undefined = ⊥
IsFound asked out_of_fuel = ⊥
IsFound asked thrown = asked ≡ true

abbrev pub IsTaken : Bool → List Action × Outcome (List Waiting) → Type 0
IsTaken asked (told, found) =
    All IsDelivery told × ((asked ≡ false → told ≡ []) × IsFound asked found)

module _ (s : Searches)
    (waiting_ok : (found : Service) (dev : Device) → IsMeaningful (s.waiting found dev))
    (ends_ok : (a : Action) → IsMeaningful (s.ends a)) where
  deliver_all-IsTaken :
      (waiting : Outcome (List Waiting))
      → IsMeaningful waiting
      → IsTaken true (deliver_all s.ends waiting)
  unfolding deliver_all
  deliver_all-IsTaken (returned waiting) ok = (
    perform_all-All s.ends IsDelivery (deliveries waiting) (deliveries-IsDelivery waiting),
    (
      (λ e. cc),
      told (perform_all s.ends (deliveries waiting)).1 (
          meaningful (perform_all s.ends (deliveries waiting))
            (perform_all-IsRun s.ends (deliveries waiting) ends_ok)),
    ),
  )
    where
      meaningful : (r : List Action × Outcome (Unit {0})) → IsRun s.ends r → IsMeaningful r.1
      meaningful (actions, returned u) h = tt
      meaningful (actions, undefined) h = h
      meaningful (actions, out_of_fuel) h = h
      meaningful (actions, iota_exception r d c) h = tt
      meaningful (actions, runtime_error what) h = tt
      meaningful (actions, bad_cast) h = tt

      told :
          (end : Outcome (Unit {0}))
          → IsMeaningful end
          → IsFound true (end >>= λ u. returned waiting)
      told (returned u) h = tt
      told undefined h = h
      told out_of_fuel h = h
      told (iota_exception r d c) h = refl
      told (runtime_error what) h = refl
      told bad_cast h = refl
  deliver_all-IsTaken undefined ok = absurd ok
  deliver_all-IsTaken out_of_fuel ok = absurd ok
  deliver_all-IsTaken (iota_exception reason details status) ok = (tt, ((λ e. refl), refl))
  deliver_all-IsTaken (runtime_error what) ok = (tt, ((λ e. refl), refl))
  deliver_all-IsTaken bad_cast ok = (tt, ((λ e. refl), refl))

  pub asked_commands-IsTaken :
      (is_mongo asked : Bool) (found : Service) (dev : Option Device)
      → IsTaken asked (asked_commands s is_mongo asked found dev)
  unfolding asked_commands get_all_command
  asked_commands-IsTaken is_mongo false found dev = (tt, ((λ e. refl), tt))
  asked_commands-IsTaken is_mongo true found none = (tt, ((λ e. refl), tt))
  asked_commands-IsTaken true true found (some dev) =
      deliver_all-IsTaken (s.waiting found dev) (waiting_ok found dev)
  asked_commands-IsTaken false true found (some dev) = (tt, ((λ e. refl), tt))
