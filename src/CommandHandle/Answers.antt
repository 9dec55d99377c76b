-- ===== src/CommandHandle/Answers.antt =====
-- src/rest/command_handle.cc: the code and the responses that updateContext gives for any request.
use fiware_io_tagent_cpluspl.Common.{
  ℕ, Bytes, codes, str_eq, Option, none, some, List, [], ◌∷◌, ◌++◌, map, ◌≡◌, ◌≢◌, ◌↔◌, ◌⊎◌, inl,
  inr, refl, sym, ap, ◌∙◌, is_empty, if◌then◌else◌, if-both, All, append_nil, append_snoc, arith,
}
use mathlib.Core.Path.{subst}
use fiware_io_tagent_cpluspl.Common.Outcome.{
  Outcome, returned, iota_exception, runtime_error, bad_cast, undefined, out_of_fuel,
}
use fiware_io_tagent_cpluspl.Device.{Device}
use fiware_io_tagent_cpluspl.Ngsi.Attribute.{Attribute}
use fiware_io_tagent_cpluspl.Ngsi.ContextElement.{ContextElement, Service}
use fiware_io_tagent_cpluspl.CommandHandle.{Effect}
use fiware_io_tagent_cpluspl.CommandHandle.Update.{
  ContextResponse, Progress, Loop, finished, thrown, lost, fail, with_effects, note_command,
  Handler, note_attribute, note_attributes, note_entity, no_item_dev, caught_in_update,
  new_response, Update, add_response, update_entity, update_entities, update_context,
}

-- A call ends in one of the ways that the language has, and an IotaException has not the code 200.
abbrev pub IsProper {ℓ} : {A : Type ℓ} → Outcome A → Type 0
IsProper (returned a) = Unit
IsProper (iota_exception reason details status) = status ≢ 200
IsProper (runtime_error what) = Unit
IsProper bad_cast = Unit
IsProper undefined = ⊥
IsProper out_of_fuel = ⊥

-- The response is for the entity, and it fails together with the call.
abbrev IsNoted : ContextElement → ℕ → Progress → Type 0
IsNoted entity before p =
    (p.res.context_element ≡ entity)
    × (((p.res.code ≡ 200) × (p.iresponse ≡ before)) ⊎ ((p.res.code ≢ 200) × (p.iresponse ≢ 200)))

abbrev IsNotedLoop : ContextElement → ℕ → Loop → Type 0
IsNotedLoop entity before (finished p) = IsNoted entity before p
IsNotedLoop entity before (thrown p what) = IsNoted entity before p
IsNotedLoop entity before lost = ⊥

module _ (entity : ContextElement) (before : ℕ) where
  fail-IsNoted :
      (status : ℕ) (reason details : Bytes) (p : Progress)
      → status ≢ 200
      → IsNoted entity before p
      → IsNoted entity before (fail status reason details p)
  unfolding fail
  fail-IsNoted status reason details p other h = (h.0, inr (other, other))

  note_command-IsNoted :
      (call : Outcome (Unit {0}) × List Effect) (p : Progress)
      → IsProper call.0
      → IsNoted entity before p
      → IsNotedLoop entity before (note_command call p)
  unfolding note_command with_effects
  note_command-IsNoted (returned done, effects) p proper h = h
  note_command-IsNoted (iota_exception reason details status, effects) p proper h =
      fail-IsNoted status reason details (with_effects effects p) proper h
  note_command-IsNoted (runtime_error what, effects) p proper h = h
  note_command-IsNoted (bad_cast, effects) p proper h = h
  note_command-IsNoted (undefined, effects) p proper h = absurd proper
  note_command-IsNoted (out_of_fuel, effects) p proper h = absurd proper

  module _ (update_command : Handler)
      (proper : (name value : Bytes) (dev : Device) (entity_type : Bytes)
        → IsProper (update_command name value dev entity_type).0) where
    note_attribute-IsNoted :
        (dev : Device) (entity_type : Bytes) (att : Attribute) (p : Progress)
        → IsNoted entity before p
        → IsNotedLoop entity before (note_attribute update_command dev entity_type att p)
    unfolding note_attribute
    note_attribute-IsNoted dev entity_type att p h =
        if-both (IsNotedLoop entity before) (str_eq att.type (codes "command")) _ _
          (λ _.
            note_command-IsNoted (update_command att.name att.value dev entity_type) p
              (proper att.name att.value dev entity_type) h)
          (λ _. fail-IsNoted 400 _ att.name p (omega arith) h)

    note_attributes-IsNoted :
        (dev : Device) (entity_type : Bytes) (atts : List Attribute) (p : Progress)
        → IsNoted entity before p
        → IsNotedLoop entity before (note_attributes update_command dev entity_type atts p)
    unfolding note_attributes
    note_attributes-IsNoted dev entity_type [] p h = h
    note_attributes-IsNoted dev entity_type (att ∷ atts) p h =
        onward (note_attribute update_command dev entity_type att p)
          (note_attribute-IsNoted dev entity_type att p h)
          (λ q k. note_attributes-IsNoted dev entity_type atts q k)
      where
        onward :
            (step : Loop)
            → IsNotedLoop entity before step
            → ((q : Progress)
                → IsNoted entity before q
                → IsNotedLoop entity before (note_attributes update_command dev entity_type atts q))
            → IsNotedLoop entity before (elim step [
              | finished q ↦ note_attributes update_command dev entity_type atts q
              | thrown q what ↦ thrown q what
              | lost ↦ lost
            ])
        onward (finished q) k rest = rest q k
        onward (thrown q what) k rest = k
        onward lost k rest = k

    note_entity-IsNoted :
        (service : Service) (found : Outcome (Option Device)) (p : Progress)
        → IsProper found
        → IsNoted entity before p
        → IsNotedLoop entity before (note_entity update_command service entity found p)
    unfolding note_entity
    note_entity-IsNoted service (returned none) p ok h =
        fail-IsNoted 404 _ (no_item_dev entity.id (service.get (codes "service") [])) p
          (omega arith) h
    note_entity-IsNoted service (returned (some dev)) p ok h =
        note_attributes-IsNoted dev
          (if is_empty dev.entity_type
            then service.get (codes "entity_type") []
            else dev.entity_type)
          entity.attributes p h
    note_entity-IsNoted service (iota_exception reason details status) p ok h =
        fail-IsNoted status reason details p ok h
    note_entity-IsNoted service (runtime_error what) p ok h = h
    note_entity-IsNoted service bad_cast p ok h = h
    note_entity-IsNoted service undefined p ok h = absurd ok
    note_entity-IsNoted service out_of_fuel p ok h = absurd ok

  caught-IsNoted :
      (loop : Loop)
      → IsNotedLoop entity before loop
      → (p : Progress) × (caught_in_update loop ≡ some p) × IsNoted entity before p
  unfolding caught_in_update
  caught-IsNoted (finished p) h = (p, refl, h)
  caught-IsNoted (thrown p what) h = (
    fail 500 (codes "Conctact with your administrator, there was an internal error") what p,
    refl,
    fail-IsNoted 500 _ what p (omega arith) h,
  )
  caught-IsNoted lost h = absurd h

-- The responses are for the entities, and the call fails just when one of them does.
abbrev pub AreAnswers : List ContextElement → Update → Type 0
AreAnswers entities u =
    (map (λ (r : ContextResponse). r.context_element) u.context_responses ≡ entities)
    × ((u.iresponse ≡ 200) ↔ All (λ (r : ContextResponse). r.code ≡ 200) u.context_responses)

All-snoc :
    {A : Type 0} (P : A → Type 0) (xs : List A) (x : A) → All P (xs ++ (x ∷ [])) ↔ (All P xs × P x)
All-snoc P [] x = (λ h. (tt, h.0), λ h. (h.1, tt))
All-snoc P (y ∷ xs) x = (
  λ h. ((h.0, ((All-snoc P xs x).0 h.1).0), ((All-snoc P xs x).0 h.1).1),
  λ h. (h.0.0, (All-snoc P xs x).1 (h.0.1, h.1)),
)

map-snoc :
    {A B : Type 0} (f : A → B) (xs : List A) (x : A)
    → map f (xs ++ (x ∷ [])) ≡ map f xs ++ (f x ∷ [])
map-snoc f [] x = refl
map-snoc f (y ∷ xs) x = ap (◌∷◌ (f y)) (map-snoc f xs x)

-- One more response.
snoc-AreAnswers :
    (entities : List ContextElement) (entity : ContextElement) (before now : ℕ)
    (rs : List ContextResponse) (r : ContextResponse) (fx gx : List Effect)
    → AreAnswers entities (record { iresponse = before; context_responses = rs; effects = fx })
    → r.context_element ≡ entity
    → (((r.code ≡ 200) × (now ≡ before)) ⊎ ((r.code ≢ 200) × (now ≢ 200)))
    → AreAnswers
        (entities ++ (entity ∷ []))
        (record { iresponse = now; context_responses = rs ++ (r ∷ []); effects = gx })
snoc-AreAnswers entities entity before now rs r fx gx h same either = (
  map-snoc (λ (q : ContextResponse). q.context_element) rs r
      ∙ ap (λ (es : List ContextElement). es ++ (r.context_element ∷ [])) h.0
      ∙ ap (λ (e : ContextElement). entities ++ (e ∷ [])) same,
  codes_iff either,
)
  where
    codes_iff :
        (((r.code ≡ 200) × (now ≡ before)) ⊎ ((r.code ≢ 200) × (now ≢ 200)))
        → (now ≡ 200) ↔ All (λ (q : ContextResponse). q.code ≡ 200) (rs ++ (r ∷ []))
    codes_iff (inl (good, kept)) = (
      λ e. (All-snoc (λ (q : ContextResponse). q.code ≡ 200) rs r).1 (h.1.0 (sym kept ∙ e), good),
      λ all. kept ∙ h.1.1 ((All-snoc (λ (q : ContextResponse). q.code ≡ 200) rs r).0 all).0,
    )
    codes_iff (inr (bad, wrong)) = (
      λ e. absurd (wrong e),
      λ all. absurd (bad ((All-snoc (λ (q : ContextResponse). q.code ≡ 200) rs r).0 all).1),
    )

module _ (update_command : Handler)
    (proper : (name value : Bytes) (dev : Device) (entity_type : Bytes)
      → IsProper (update_command name value dev entity_type).0)
    (get_device_by_entity : Bytes → Bytes → Outcome (Option Device))
    (found_proper : (id type : Bytes) → IsProper (get_device_by_entity id type))
    (service : Service) where
  update_entity-AreAnswers :
      (entities : List ContextElement) (entity : ContextElement) (u : Update)
      → AreAnswers entities u
      → (w : Update) × (update_entity update_command get_device_by_entity service entity u ≡ some w)
        × AreAnswers (entities ++ (entity ∷ [])) w
  unfolding update_entity add_response
  update_entity-AreAnswers entities entity u h =
      let start : Progress = record {
        iresponse = u.iresponse;
        res = new_response entity;
        effects = u.effects;
      } in
      let (p, caught, noted) =
        caught-IsNoted entity u.iresponse
          (note_entity update_command service entity (get_device_by_entity entity.id entity.type)
            start)
          (note_entity-IsNoted entity u.iresponse update_command proper service
            (get_device_by_entity entity.id entity.type) start (found_proper entity.id entity.type)
            (new_response-IsNoted entity u)) in
      (
        record {
          iresponse = p.iresponse;
          context_responses = u.context_responses ++ (p.res ∷ []);
          effects = p.effects;
        },
        ap (add_response u) caught,
        snoc-AreAnswers entities entity u.iresponse p.iresponse u.context_responses p.res u.effects
            p.effects h noted.0 noted.1,
      )
    where
      new_response-IsNoted :
          (entity : ContextElement) (u : Update)
          → IsNoted entity u.iresponse
              (record { iresponse = u.iresponse; res = new_response entity; effects = u.effects })
      new_response-IsNoted entity u = unfold new_response in (refl, inl (refl, refl))

  update_entities-AreAnswers :
      (entities before : List ContextElement) (u : Update)
      → AreAnswers before u
      → (w : Update) × (update_entities update_command get_device_by_entity service entities u
          ≡ some w)
        × AreAnswers (before ++ entities) w
  unfolding update_entities
  update_entities-AreAnswers [] before u h =
      (u, refl, subst (λ (es : List ContextElement). AreAnswers es u) (sym (append_nil before)) h)
  update_entities-AreAnswers (entity ∷ entities) before u h =
      let (v, one, k) = update_entity-AreAnswers before entity u h in
      let (w, more, all) = update_entities-AreAnswers entities (before ++ (entity ∷ [])) v k in
      (
        w,
        rw (one, update_entities) more,
        subst (λ (es : List ContextElement). AreAnswers es w) (append_snoc before entity entities)
            all,
      )

  -- When neither updateCommand nor get_device_by_entity leaves what the language has no meaning for,
  -- or an IotaException with the code 200, updateContext returns for every request: with one
  -- response for each entity of the request, in their order, and with the code 200 exactly when every
  -- response has it.
  pub update_context-AreAnswers :
      (entities : List ContextElement)
      → (u : Update) × (update_context update_command get_device_by_entity service entities
          ≡ some u)
        × (map (λ (r : ContextResponse). r.context_element) u.context_responses ≡ entities)
        × ((u.iresponse ≡ 200) ↔ All (λ (r : ContextResponse). r.code ≡ 200) u.context_responses)
  unfolding update_context
  update_context-AreAnswers entities =
      let (u, e, all) =
        update_entities-AreAnswers entities []
          (record { iresponse = 200; context_responses = []; effects = [] })
          (refl, ((λ e. tt), (λ e. refl))) in
      (u, e, all.0, all.1)
