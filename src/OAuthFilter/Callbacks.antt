-- ===== src/OAuthFilter/Callbacks.antt =====
-- src/rest/http_filter.h: the callbacks of the requests that wait for a filter.
use fiware_io_tagent_cpluspl.Common.{
  ℕ, Bytes, bytes_key, str_eq, str_eq_self, false, none, some, ◌≡◌, refl, ◌∙◌,
}
use fiware_io_tagent_cpluspl.Common.Map.{
  Assoc, find, insert, erase, IsOrdered, find-insert_fresh, find-erase, insert-IsOrdered,
}

-- `_callbacks`; a callback is known by a number.
abbrev pub Callbacks : Type 0
Callbacks = Assoc Bytes ℕ

-- HTTPFilter::set_async_filter
unfoldable pub set_async_filter : Bytes → ℕ → Callbacks → Callbacks
set_async_filter uuid_request callback callbacks = insert uuid_request callback callbacks

-- The callback is called with the status, or an empty function is, which throws.
pub data Call : Type 0 where
  called : ℕ → ℕ → Call
  bad_function_call : Call

-- HTTPFilter::call_to_callback
unfoldable pub call_to_callback : Bytes → ℕ → Callbacks → Call × Callbacks
call_to_callback id_request s callbacks = elim (find id_request callbacks) [
  | none ↦ (bad_function_call, callbacks)
  | some my_callback ↦ (called my_callback s, erase id_request callbacks)
]

call_to_callback-of_some :
    (id : Bytes) (s callback : ℕ) (callbacks : Callbacks)
    → find id callbacks ≡ some callback
    → call_to_callback id s callbacks ≡ (called callback s, erase id callbacks)
unfolding call_to_callback
call_to_callback-of_some id s callback callbacks e = rw (e, call_to_callback) refl

call_to_callback-of_none :
    (id : Bytes) (s : ℕ) (callbacks : Callbacks)
    → find id callbacks ≡ none
    → call_to_callback id s callbacks ≡ (bad_function_call, callbacks)
unfolding call_to_callback
call_to_callback-of_none id s callbacks e = rw (e, call_to_callback) refl

-- Among callbacks in the order of their requests, none of them for this one: once a callback is set,
-- the first status calls it, with that status; a second status finds no callback and throws; and
-- neither changes which callback another request has.
pub call_to_callback-set_async_filter :
    (id other : Bytes) (callback s t : ℕ) (callbacks : Callbacks)
    → IsOrdered callbacks
    → find id callbacks ≡ none
    → str_eq other id ≡ false
    → let waiting = set_async_filter id callback callbacks in
      let first = call_to_callback id s waiting in
      let second = call_to_callback id t first.1 in
      (first.0 ≡ called callback s)
      × (second.0 ≡ bad_function_call)
      × (find other second.1 ≡ find other callbacks)
unfolding set_async_filter
call_to_callback-set_async_filter id other callback s t callbacks ordered fresh distinct =
    let waiting = insert id callback callbacks in
    let kept : find id waiting ≡ some callback =
      find-insert_fresh id id callback callbacks fresh ∙ rw (str_eq_self id) refl in
    let first = call_to_callback-of_some id s callback waiting kept in
    let gone : find id (erase id waiting) ≡ none =
      find-erase id id waiting (insert-IsOrdered id callback callbacks ordered)
      ∙ rw (str_eq_self id) refl in
    let second = call_to_callback-of_none id t (erase id waiting) gone in
    let same : find other (erase id waiting) ≡ find other callbacks =
      find-erase id other waiting (insert-IsOrdered id callback callbacks ordered)
      ∙ rw distinct (find-insert_fresh id other callback callbacks fresh ∙ rw distinct refl) in
    rw (first, second) (refl, refl, same)
