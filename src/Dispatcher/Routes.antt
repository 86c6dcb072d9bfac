-- ===== src/Dispatcher/Routes.antt =====
-- Registration and lookup of routes: minet/src/core/IRequestDispatcher.cpp.
use minet_core.Prelude.{
  Bool, true, false, [], Option, none, some, ◌≡◌, ◌⊎◌, inl, inr, refl, sym, ap, ◌∙◌, Bytes, equal,
  equal_iff, Bool-cases, bytes_eq,
}
use minet_core.Prelude.Map.{Map, find, insert, find-insert}
use minet_core.Http.{HttpMethod, method_beq, method_beq_iff, method_eq}
use minet_core.Request.{HttpContext}
use minet_core.Io.Stream.{Stream}
use minet_core.Path.{clean_path}
use minet_core.Dispatcher.{
  Handler, Dispatcher, Found, found, no_path, no_method, lookup, find_method, methods_or_empty,
  put_handler, put_if_absent, found_or, register_clean, register_handler, register_at, Streams,
  dispatch, dispatch_clean, dispatch_at, after_found, caught, run_found, invoke_handler,
}

-- What is found for a path and a method, after a handler was registered for them or for others.
abbrev pub found_after : Bool → Bool → Handler → Found → Found
found_after true true h (found g) = found g
found_after true true h no_path = found h
found_after true true h no_method = found h
found_after true false h no_path = no_method
found_after true false h f = f
found_after false _ h f = f

found_after-other :
    (h : Handler) (o : Option Handler) → found_or o ≡ found_after true false h (found_or o)
found_after-other h none = refl
found_after-other h (some g) = refl

found_after-absent :
    (h : Handler) (o : Option Handler)
    → (found_or o ≡ no_path) ⊎ (found_or o ≡ no_method)
    → found h ≡ found_after true true h (found_or o)
found_after-absent h none n = refl
found_after-absent h (some g) n = elim n [ inl e ↦ cc | inr e ↦ cc ]

-- The inner map after the registration.
find_method-insert :
    (o : Option (Map HttpMethod Handler)) (m k : HttpMethod) (h : Handler)
    → (find_method m o ≡ no_path) ⊎ (find_method m o ≡ no_method)
    → find_method k (some (insert m h (methods_or_empty o)))
      ≡ found_after true (method_beq m k) h (find_method k o)
find_method-insert none m k h n = elim (Bool-cases (method_beq m k)) [
  | inl e ↦ rw (find-insert m k h [], e) refl
  | inr e ↦ rw (find-insert m k h [], e) (unfold find in refl)
]
find_method-insert (some ms) m k h n = elim (Bool-cases (method_beq m k)) [
  | inl e ↦
      let same : m ≡ k = (method_beq_iff m k).0 e in
      ap found_or (find-insert m k h ms)
      ∙ rw e (
          found_after-absent h (find m ms) n
          ∙ ap (λ x. found_after true true h (found_or (find x ms))) same)
  | inr e ↦ ap found_or (find-insert m k h ms) ∙ rw e (found_after-other h (find k ms))
]

lookup-put_handler :
    (d : Dispatcher) (p q : Bytes) (m k : HttpMethod) (h : Handler)
    → (lookup d p m ≡ no_path) ⊎ (lookup d p m ≡ no_method)
    → lookup (put_handler p m h d) q k ≡ found_after (equal p q) (method_beq m k) h (lookup d q k)
lookup-put_handler d p q m k h n =
    ap (find_method k)
      (find-insert p q (insert m h (methods_or_empty (find p d.handlers))) d.handlers)
    ∙ elim (Bool-cases (equal p q)) [
      | inl e ↦
          let same : p ≡ q = (equal_iff p q).0 e in
          rw e (
            find_method-insert (find p d.handlers) m k h n
            ∙ ap (λ x. found_after true (method_beq m k) h (lookup d x k)) same)
      | inr e ↦ rw e refl
    ]

lookup_absent :
    (d : Dispatcher) (p : Bytes) (m : HttpMethod) (f : Found)
    → lookup d p m ≡ f
    → ((g : Handler) × (f ≡ found g)) ⊎ ((f ≡ no_path) ⊎ (f ≡ no_method))
lookup_absent d p m (found g) e = inl (g, refl)
lookup_absent d p m no_path e = inr (inl refl)
lookup_absent d p m no_method e = inr (inr refl)

-- Where a handler is found, the registration changes nothing.
found_after-found :
    (o : Option (Map HttpMethod Handler)) (m k : HttpMethod) (g h : Handler)
    → find_method m o ≡ found g
    → find_method k o ≡ found_after true (method_beq m k) h (find_method k o)
found_after-found none m k g h e = cc
found_after-found (some ms) m k g h e = elim (Bool-cases (method_beq m k)) [
  | inl b ↦
      let same : m ≡ k = (method_beq_iff m k).0 b in
      let e' : find_method k (some ms) ≡ found g =
        ap (λ x. find_method x (some ms)) (sym same) ∙ e in
      rw (b, e') refl
  | inr b ↦ rw b (found_after-other h (find k ms))
]

lookup-found :
    (d : Dispatcher) (p q : Bytes) (m k : HttpMethod) (g h : Handler)
    → lookup d p m ≡ found g
    → lookup d q k ≡ found_after (equal p q) (method_beq m k) h (lookup d q k)
lookup-found d p q m k g h e = elim (Bool-cases (equal p q)) [
  | inl b ↦
      let same : p ≡ q = (equal_iff p q).0 b in
      rw b (found_after-found (find q d.handlers) m k g h (ap (λ x. lookup d x m) (sym same) ∙ e))
  | inr b ↦ rw b refl
]

-- Registering a handler for a clean path and a method changes only what is found there, and only if
-- nothing was: the first handler stays. Other methods of a path that is now known are no longer
-- "not found" but "not allowed".
pub lookup-register_clean :
    (d : Dispatcher) (p q : Bytes) (m k : HttpMethod) (h : Handler)
    → lookup (register_clean p m h d) q k
      ≡ found_after (equal p q) (method_beq m k) h (lookup d q k)
lookup-register_clean d p q m k h = elim (lookup_absent d p m (lookup d p m) refl) [
  | inl (g, e) ↦ ap (λ f. lookup (put_if_absent p m h d f) q k) e ∙ lookup-found d p q m k g h e
  | inr (inl e) ↦
      ap (λ f. lookup (put_if_absent p m h d f) q k) e ∙ lookup-put_handler d p q m k h (inl e)
  | inr (inr e) ↦
      ap (λ f. lookup (put_if_absent p m h d f) q k) e ∙ lookup-put_handler d p q m k h (inr e)
]

lookup_new :
    (d : Dispatcher) (p : Bytes) (m : HttpMethod) (h : Handler)
    → (lookup d p m ≡ no_path) ⊎ (lookup d p m ≡ no_method)
    → lookup (register_clean p m h d) p m ≡ found h
lookup_new d p m h n =
    let a : equal p p ≡ true = (equal_iff p p).1 refl in
    let b : method_beq m m ≡ true = (method_beq_iff m m).1 refl in
    lookup-register_clean d p p m m h
    ∙ ap (λ x. found_after x (method_beq m m) h (lookup d p m)) a
    ∙ ap (λ x. found_after true x h (lookup d p m)) b
    ∙ elim n [ inl e ↦ ap (found_after true true h) e | inr e ↦ ap (found_after true true h) e ]

module _ {S : Type 0} (io : Stream S) where
  -- After a handler was registered for a method and a path for which there was none, a request with
  -- that method, and any path that cleans to the same, is given to that handler.
  pub register_handler-dispatch :
      (d : Dispatcher) (path clean garbage : Bytes) (h : Handler) (c : HttpContext)
      (streams : Streams io)
      → clean_path path ≡ some clean
      → clean_path c.request.path ≡ some clean
      → (lookup d clean c.request.method ≡ no_path) ⊎ (lookup d clean c.request.method ≡ no_method)
      → (d' : Dispatcher) × (register_handler path c.request.method h d ≡ some d')
        × (dispatch io garbage d' c streams
            ≡ after_found io garbage d' (caught io (invoke_handler io garbage h c streams)))
  unfolding register_handler dispatch dispatch_clean
  register_handler-dispatch d path clean garbage h c streams e r n =
      let d' : Dispatcher = register_clean clean c.request.method h d in
      (
        d',
        ap (register_at c.request.method h d) e,
        ap (dispatch_at io garbage d' c streams) r
            ∙ ap (λ f. after_found io garbage d' (run_found io garbage c streams f))
                (lookup_new d clean c.request.method h n),
      )
