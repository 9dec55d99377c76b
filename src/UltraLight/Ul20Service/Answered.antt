-- ===== src/UltraLight/Ul20Service/Answered.antt =====
-- src/ultra_light/ul20_service.cc: how a request ends, and what it has done by then.
use fiware_io_tagent_cpluspl.Common.{Bytes, Bool, true, false, List, [], ◌++◌, ◌≡◌, ◌⊎◌, All}
use fiware_io_tagent_cpluspl.Common.Outcome.{Outcome, returned}
use fiware_io_tagent_cpluspl.Device.{Device}
use fiware_io_tagent_cpluspl.FuncUtil.Query.{Kvp}
use fiware_io_tagent_cpluspl.Ngsi.ContextElement.{Service}
use fiware_io_tagent_cpluspl.UltraLight.Ul20Service.Request.{Query, Action}
use fiware_io_tagent_cpluspl.UltraLight.Ul20Service.Answer.{Searches, Response}
use fiware_io_tagent_cpluspl.UltraLight.Ul20Service.Performed.{
  IsMeaningful, IsThrown, IsLocal, Ended, IsStopped,
}
use fiware_io_tagent_cpluspl.UltraLight.Ul20Service.Delivered.{IsDelivery}

-- How a request ends: it is answered with 200 after all that was done returned, or with 400; or it
-- asked for commands, and that threw.
abbrev pub IsAnswer : (Action → Outcome (Unit {0})) → Bool → List Action → Outcome Response → Type 0
IsAnswer ends asked handled end =
    ((a : Response) × (end ≡ returned a)
      × (((a.status_code ≡ 200) × All (Ended ends) handled)
          ⊎ ((a.status_code ≡ 400) × (All IsLocal handled ⊎ IsStopped ends handled))))
    ⊎ ((asked ≡ true) × IsThrown end)

module _ (s : Searches)
    (translate_ok : (text : Bytes) (found : Service) (dev : Device) (sbc : List Kvp)
      → IsMeaningful (s.translate text found dev sbc))
    (command_ok : (found : Service) (id : Bytes) → IsMeaningful (s.get_command found id))
    (service_ok : (key : Bytes) → IsMeaningful (s.get_service key))
    (device_ok : (name : Bytes) (found : Service) → IsMeaningful (s.get_device name found))
    (waiting_ok : (found : Service) (dev : Device) → IsMeaningful (s.waiting found dev))
    (ends_ok : (a : Action) → IsMeaningful (s.ends a)) where
  -- What a request does for its content, and what it does for its commands.
  abbrev IsService : Bool → List Action × Outcome Response → Type 0
  IsService asked (actions, end) =
      (handled : List Action) × (delivered : List Action) × (actions ≡ handled ++ delivered)
      × All IsDelivery delivered
      × (asked ≡ false → delivered ≡ [])
      × IsAnswer s.ends asked handled end
