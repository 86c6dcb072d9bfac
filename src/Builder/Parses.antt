-- ===== src/Builder/Parses.antt =====
-- The builder's loop over a stream that holds a request: minet/src/core/HttpContext.cpp.
use minet_core.Prelude.{
  ℕ, zero, suc, ◌<◌, true, [], ◌∷◌, Option, some, ◌≡◌, inl, inr, refl, sym, ap, ◌∙◌, arith, ltb,
  Bytes, length, All, Bool-cases,
}
use mathlib.Core.Path.{subst}
use minet_core.Prelude.Int.{ℤ, pos, is_negative, is_pos}
use minet_core.Prelude.Result.{Result, Exception, returned, thrown}
use minet_core.Io.Stream.{Stream}
use minet_core.Io.Source.{Holding}
use minet_core.Io.Reader.{Reader, read, char_to_int}
use minet_core.Io.Reader.Content.{Delivers, read_data}
use minet_core.Async.{Parser, Step, feed}
use minet_core.Async.Run.{complete, run, after_step}
use minet_core.Builder.{Builder, after_fed, parse}

-- A byte that the loop goes on with: not zero, and positive as a `char`.
abbrev pub IsText : ℕ → Type 0
IsText c = (0 < c) × (c < 128)

module _ {S : Type 0} (io : Stream S) (source : Holding io) where
  -- One round on a character.
  parse_round :
      (fuel : ℕ) (b : Builder S) (c : ℕ)
      → IsText c
      → (read io b.reader).0 ≡ char_to_int c
      → parse io (suc fuel) b
        ≡ after_fed io
            (read io b.reader).1
            (feed b.parser c)
            (λ p. parse io fuel (record { parser = p; reader = (read io b.reader).1 }))
  unfolding parse
  parse_round fuel b c t e =
      let z : (read io b.reader).0 ≡ pos c = e ∙ ground (arith, t.0, t.1) in
      let k : ltb 0 c ≡ true = ground (arith, t.0) in rw z (rw k refl)

  -- What the loop makes of a request in the stream.
  pub record Completes (q : Parser) (rest : Bytes) (m : Option (Result (ℤ × Builder S)))
      : Type 0 where
    pub after : Reader S
    pub result : m ≡ some (returned (pos 1, record { parser = q; reader = after }))
    pub left : Delivers io source after rest

  after_fed-Completes :
      (r : Reader S) (cs rest : Bytes) (q : Parser) (m : Step)
      (next : Parser → Option (Result (ℤ × Builder S)))
      → Delivers io source r cs
      → after_step m cs (λ p. run p cs) ≡ returned (complete q rest)
      → ((p : Parser) → run p cs ≡ returned (complete q rest) → Completes q rest (next p))
      → Completes q rest (after_fed io r m next)
  after_fed-Completes r cs rest q (thrown e) next d h k = cc
  after_fed-Completes r cs rest q (returned (n, p)) next d h k = elim (Bool-cases (is_negative n)) [
    | inl a ↦ cc (rw a at h)
    | inr a ↦ elim (Bool-cases (is_pos n 1)) [
      | inl b ↦
          let w : returned (complete p cs) ≡ returned (complete q rest) = rw (a, b) at h in
          let same : p ≡ q = cc in
          let left : cs ≡ rest = cc in
          rw (a, b)
            (record {
              after = r;
              result = ap (λ x. some (returned (pos 1, record { parser = x; reader = r }))) same;
              left = subst (Delivers io source r) left d;
            })
      | inr b ↦ rw (a, b) (k p (rw (a, b) at h))
    ]
  ]

  -- Where the stream gives characters that are all from 1 to 127, and the parser completes a request on them, the
  -- builder's loop returns 1 with that request, and the characters behind it are left. One round more than
  -- there are characters is enough. A byte 0, or one of 128 and more, which is negative as a `char`,
  -- ends the loop, and is not covered.
  pub parse-run :
      (bs rest : Bytes) (q : Parser) (b : Builder S) (fuel : ℕ)
      → All IsText bs
      → Delivers io source b.reader bs
      → length bs < fuel
      → run b.parser bs ≡ returned (complete q rest)
      → Completes q rest (parse io fuel b)
  unfolding run
  parse-run [] rest q b fuel t d h e = cc
  parse-run (c ∷ cs) rest q b zero t d h e = absurd (omega arith)
  parse-run (c ∷ cs) rest q b (suc fuel) t d h e =
      let g = read_data io source b.reader c cs d in
      subst (Completes q rest) (sym (parse_round fuel b c t.0 g.value)) (
        after_fed-Completes (read io b.reader).1 cs rest q (feed b.parser c)
          (λ p. parse io fuel (record { parser = p; reader = (read io b.reader).1 })) g.after e
          (λ p w.
            parse-run cs rest q (record { parser = p; reader = (read io b.reader).1 }) fuel t.1
              g.after (omega arith) w))

  after_fed-thrown :
      (r : Reader S) (cs : Bytes) (m : Step) (next : Parser → Option (Result (ℤ × Builder S)))
      (e : Exception)
      → after_step m cs (λ p. run p cs) ≡ thrown e
      → ((p : Parser) → run p cs ≡ thrown e → next p ≡ some (thrown e))
      → after_fed io r m next ≡ some (thrown e)
  after_fed-thrown r cs (thrown x) next e h k = cc
  after_fed-thrown r cs (returned (n, p)) next e h k = elim (Bool-cases (is_negative n)) [
    | inl a ↦ cc (rw a at h)
    | inr a ↦ elim (Bool-cases (is_pos n 1)) [
      | inl b ↦ cc (rw (a, b) at h)
      | inr b ↦ rw (a, b) (k p (rw (a, b) at h))
    ]
  ]

  -- Where the parser throws on the characters from 1 to 127 of a stream, the builder's loop throws the same exception.
  pub parse-thrown :
      (bs : Bytes) (b : Builder S) (fuel : ℕ) (e : Exception)
      → All IsText bs
      → Delivers io source b.reader bs
      → length bs < fuel
      → run b.parser bs ≡ thrown e
      → parse io fuel b ≡ some (thrown e)
  unfolding run
  parse-thrown [] b fuel e t d f h = cc
  parse-thrown (c ∷ cs) b zero e t d f h = absurd (omega arith)
  parse-thrown (c ∷ cs) b (suc fuel) e t d f h =
      let g = read_data io source b.reader c cs d in
      parse_round fuel b c t.0 g.value
      ∙ after_fed-thrown (read io b.reader).1 cs (feed b.parser c)
          (λ p. parse io fuel (record { parser = p; reader = (read io b.reader).1 })) e h
          (λ p w.
            parse-thrown cs (record { parser = p; reader = (read io b.reader).1 }) fuel e t.1
              g.after (omega arith) w)
