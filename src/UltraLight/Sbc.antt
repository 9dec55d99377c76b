-- ===== src/UltraLight/Sbc.antt =====
-- src/ultra_light/ULInsertObservation.cc: messages of the protocol SBC.
use fiware_io_tagent_cpluspl.Common.{
  Avoids, ℕ, suc, Bytes, codes, false, ==_self, Option, List, [], ◌∷◌, ◌++◌, ◌≡◌, refl, sym, ap,
  ◌∙◌, map, length, is_empty, All, append_snoc, append_nil, arith,
}
use fiware_io_tagent_cpluspl.Common.Outcome.{
  Outcome, returned, iota_exception, runtime_error, bad_cast, undefined, out_of_fuel, ◌>>=◌,
  >>=-eq-returned,
}
use fiware_io_tagent_cpluspl.Device.{Device}
use fiware_io_tagent_cpluspl.FuncUtil.Query.{Kvp}
use fiware_io_tagent_cpluspl.Ngsi.ContextElement.{ContextElement, Service}
use fiware_io_tagent_cpluspl.UltraLight.{
  Calls, caught, resource_of, name_of, query_value_of, content_for_sbc_protocol, date_of,
  make_element, add_value, read_values, read_measure, read_measures, checked_size, translate,
}
use fiware_io_tagent_cpluspl.UltraLight.Content.{
  IsBoost, measure_text, content_for_sbc_protocol-of_pair, clean-of_graphic,
}
use fiware_io_tagent_cpluspl.UltraLight.Messages.{
  IsMeasure, IsField-Avoids, message_text, length-measure_texts, measure_texts-Avoids,
  message_text-IsGraphic, message_text_nonempty,
}

caught_bind :
    (o : Outcome ContextElement) (elements : List ContextElement)
    → caught ((o >>= λ e. returned (elements ++ (e ∷ []))) >>= λ added. returned added)
      ≡ (caught o >>= λ e. returned (elements ++ (e ∷ [])))
unfolding caught
caught_bind (returned e) elements = refl
caught_bind (iota_exception reason details status) elements = refl
caught_bind (runtime_error what) elements = refl
caught_bind bad_cast elements = refl
caught_bind undefined elements = refl
caught_bind out_of_fuel elements = refl

caught_run :
    (d : Outcome Bytes) (make : Bytes → Outcome ContextElement) (elements : List ContextElement)
    → caught (
        d >>= λ date.
        (make date >>= λ e. returned (elements ++ (e ∷ []))) >>= λ added. returned added)
      ≡ (caught (d >>= make) >>= λ e. returned (elements ++ (e ∷ [])))
unfolding caught
caught_run (returned date) make elements = caught_bind (make date) elements
caught_run (iota_exception reason details status) make elements = refl
caught_run (runtime_error what) make elements = refl
caught_run bad_cast make elements = refl
caught_run undefined make elements = refl
caught_run out_of_fuel make elements = refl

-- One entity after those before it, and the others after that.
push_first :
    (s : Outcome (List ContextElement)) (e : ContextElement) (elements : List ContextElement)
    → (s >>= λ es. returned ((elements ++ (e ∷ [])) ++ es))
      ≡ ((s >>= λ es. returned (e ∷ es)) >>= λ es. returned (elements ++ es))
push_first (returned es) e elements = ap returned (append_snoc elements e es)
push_first (iota_exception reason details status) e elements = refl
push_first (runtime_error what) e elements = refl
push_first bad_cast e elements = refl
push_first undefined e elements = refl
push_first out_of_fuel e elements = refl

push_next :
    (o : Outcome ContextElement) (k : List ContextElement → Outcome (List ContextElement))
    (s : Outcome (List ContextElement)) (elements : List ContextElement)
    → ((added : List ContextElement) → k added ≡ (s >>= λ es. returned (added ++ es)))
    → ((o >>= λ e. returned (elements ++ (e ∷ []))) >>= k)
      ≡ ((o >>= λ e. s >>= λ es. returned (e ∷ es)) >>= λ es. returned (elements ++ es))
push_next (returned e) k s elements h = h (elements ++ (e ∷ [])) ∙ push_first s e elements
push_next (iota_exception reason details status) k s elements h = refl
push_next (runtime_error what) k s elements h = refl
push_next bad_cast k s elements h = refl
push_next undefined k s elements h = refl
push_next out_of_fuel k s elements h = refl

bind_checked :
    (o : Outcome (List ContextElement)) (f : List ContextElement → Outcome (List ContextElement))
    → ((es : List ContextElement) → o ≡ returned es → f es ≡ returned es)
    → ((o >>= λ es. returned es) >>= f) ≡ o
bind_checked (returned es) f h = h es refl
bind_checked (iota_exception reason details status) f h = refl
bind_checked (runtime_error what) f h = refl
bind_checked bad_cast f h = refl
bind_checked undefined f h = refl
bind_checked out_of_fuel f h = refl

resource_of_nonempty :
    (name : Bytes) → is_empty name ≡ false → is_empty (resource_of name name) ≡ false
unfolding resource_of
resource_of_nonempty [] h = absurd (ground (arith, h))
resource_of_nonempty (c ∷ name) h = refl

module _ (lib : Calls) (boost : IsBoost lib) (fuel : ℕ) (dev : Option Device)
    (service : Service) where
  -- The entity of a measure, with the error that its request is answered with.
  abbrev pub element_of : Bytes → Bytes → Bytes × Bytes → Outcome ContextElement
  element_of device_name sampling_time (alias, value) = caught (do
    date ← date_of lib (lib.riot_tokenizer sampling_time (codes " "))
    make_element lib fuel device_name dev service date alias value)

  -- The entities of the measures, one after the other, up to the first error.
  abbrev pub elements_of : Bytes → Bytes → List (Bytes × Bytes) → Outcome (List ContextElement)
  elements_of device_name sampling_time [] = returned []
  elements_of device_name sampling_time (m ∷ ms) = element_of device_name sampling_time m >>= λ e.
      elements_of device_name sampling_time ms >>= λ es. returned (e ∷ es)

  elements_of-length :
      (device_name sampling_time : Bytes) (ms : List (Bytes × Bytes)) (es : List ContextElement)
      → elements_of device_name sampling_time ms ≡ returned es
      → length es ≡ length ms
  elements_of-length device_name sampling_time [] es h =
      let same : [] ≡ es = ground (arith, h) in rw (← same) refl
  elements_of-length device_name sampling_time (m ∷ ms) es h =
      let (e, p, q) = >>=-eq-returned (element_of device_name sampling_time m) _ h in
      let (others, r, s) = >>=-eq-returned (elements_of device_name sampling_time ms) _ q in
      let same : e ∷ others ≡ es = ground (arith, s) in
      rw (← same) (ap suc (elements_of-length device_name sampling_time ms others r))

  read_measure-of_pair :
      (device_name sampling_time : Bytes) (m : Bytes × Bytes) (elements : List ContextElement)
      → is_empty device_name ≡ false
      → IsMeasure m
      → read_measure lib fuel device_name dev service
          ([] ∷ device_name ∷ sampling_time ∷ m.0 ∷ [] ∷ m.0 ∷ m.1 ∷ [])
          elements
        ≡ (element_of device_name sampling_time m >>= λ e. returned (elements ++ (e ∷ [])))
  unfolding read_measure read_values add_value
  read_measure-of_pair device_name sampling_time (alias, []) elements named h =
      absurd (ground (arith, h))
  read_measure-of_pair device_name sampling_time (alias, c ∷ value) elements named h =
      rw (resource_of_nonempty device_name named, h.0.0)
        (caught_run (date_of lib (lib.riot_tokenizer sampling_time (codes " ")))
          (λ date. make_element lib fuel device_name dev service date alias (c ∷ value)) elements)

  measure_tokens :
      (device_name sampling_time : Bytes) (m : Bytes × Bytes)
      → IsMeasure m
      → Avoids 124 device_name
      → Avoids 124 sampling_time
      → lib.riot_tokenizer
          (content_for_sbc_protocol (measure_text m) sampling_time device_name)
          (codes "|")
        ≡ [] ∷ device_name ∷ sampling_time ∷ m.0 ∷ [] ∷ m.0 ∷ m.1 ∷ []
  measure_tokens device_name sampling_time m h named timed =
      let alias = IsField-Avoids m.0 h.0.1 in
      let value = IsField-Avoids m.1 h.1.1 in
      rw (content_for_sbc_protocol-of_pair m.0 m.1 sampling_time device_name alias value) (
        boost.tokens_of_join 124 [] (device_name ∷ sampling_time ∷ m.0 ∷ [] ∷ m.0 ∷ m.1 ∷ [])
          (tt, (named, (timed, (alias, (tt, (alias, (value, tt))))))) refl)

  read_measures-of_pairs :
      (device_name sampling_time : Bytes) (ms : List (Bytes × Bytes))
      (elements : List ContextElement)
      → is_empty device_name ≡ false
      → Avoids 124 device_name
      → Avoids 124 sampling_time
      → All IsMeasure ms
      → read_measures lib fuel 0 device_name sampling_time dev service
          (map measure_text ms)
          elements
        ≡ (elements_of device_name sampling_time ms >>= λ es. returned (elements ++ es))
  unfolding read_measures
  read_measures-of_pairs device_name sampling_time [] elements some_name named timed h =
      ap returned (sym (append_nil elements))
  read_measures-of_pairs device_name sampling_time (m ∷ ms) elements some_name named timed h =
      rw
        (
          measure_tokens device_name sampling_time m h.0 named timed,
          read_measure-of_pair device_name sampling_time m elements some_name h.0,
        )
        (push_next (element_of device_name sampling_time m)
          (λ added.
            read_measures lib fuel 0 device_name sampling_time dev service (map measure_text ms)
              added)
          (elements_of device_name sampling_time ms) elements
          (λ added.
            read_measures-of_pairs device_name sampling_time ms added some_name named timed h.1))

  checked_size-of_length :
      (es : List ContextElement) (n : ℕ) → length es ≡ n → checked_size lib n es ≡ returned es
  unfolding checked_size
  checked_size-of_length es n h = rw (h, ==_self n) refl

  -- Translating a message of measures, each a name and a value, under the protocol SBC: for a device or a
  -- query that gives a name, the vector that was empty has the entities of the measures, one for
  -- each and in their order, made with the sampling time of the query; an error in making one
  -- is the error of the translation. The name and the time have no `|`; the names and the values of
  -- the measures are not empty and have no blank, `#` or `|`.
  pub translate-message_text :
      (query : List Kvp) (m : Bytes × Bytes) (ms : List (Bytes × Bytes))
      → is_empty (name_of dev service query) ≡ false
      → Avoids 124 (name_of dev service query)
      → Avoids 124 (query_value_of (codes "t") [] query)
      → All IsMeasure (m ∷ ms)
      → translate lib fuel (message_text m ms) dev service query [] 0
        ≡ elements_of (name_of dev service query) (query_value_of (codes "t") [] query) (m ∷ ms)
  unfolding translate
  translate-message_text query m ms some_name named timed h =
      let device_name = name_of dev service query in
      let sampling_time = query_value_of (codes "t") [] query in
      rw
        (
          clean-of_graphic lib boost (message_text m ms) (message_text-IsGraphic m ms h),
          boost.tokens_of_join 35 (measure_text m) (map measure_text ms)
              (measure_texts-Avoids (m ∷ ms) h) (message_text_nonempty m ms h),
          read_measures-of_pairs device_name sampling_time (m ∷ ms) [] some_name named timed h,
        )
        (bind_checked (elements_of device_name sampling_time (m ∷ ms))
          (checked_size lib (suc (length (map measure_text ms))))
          (λ es e. checked_size-of_length es _ (
            elements_of-length device_name sampling_time (m ∷ ms) es e
            ∙ ap suc (sym (length-measure_texts ms)))))
