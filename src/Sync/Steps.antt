-- ===== src/Sync/Steps.antt =====
-- One token at a time, on characters that are in the reader's buffer: minet/src/utils/Parser.cpp.
use minet_core.Prelude.{
  ℕ, zero, suc, ◌+◌, ◌%◌, ◌<◌, Bool, true, false, not, ◌&&◌, [], ◌∷◌, ◌++◌, ◌≡◌, ◌≢◌, inl, inr,
  refl, sym, ap, ◌∙◌, arith, ltb, ◌==◌, if◌then◌else◌, Bytes, codes, length, all, Bool-cases,
  append_assoc,
}
use mathlib.Core.Path.{subst}
use minet_core.Prelude.Int.{ℤ, pos}
use minet_core.Request.{HttpRequest}
use minet_core.Io.Stream.{Stream}
use minet_core.Io.Reader.{Reader, char_to_int}
use minet_core.Io.Reader.Buffered.{Buffers, read-Buffers}
use minet_core.Async.Chars.{strchr}
use minet_core.Sync.Calls.{Outcome, returned}
use minet_core.Sync.Token.{
  TokenType, RequestToken, RequestParser, is_end, next_char, rewind, set_type, push_char, collect,
  start_string, next_token, skip_spaces, next_string,
}

-- A byte that a parser sees as a character: not zero, and positive as a `char`.
abbrev pub is_text : ℕ → Bool
is_text c = ltb 0 c && ltb c 128

-- What the parser will read: the character that was given back, and what is in the buffer.
abbrev pub front : ℕ → Bytes → Bytes
front c bs = if c == 0 then bs else c ∷ bs

pub record At {S : Type 0} (bs : Bytes) (p : RequestParser S) : Type 0 where
  pub buffered : Bytes
  pub ready : Buffers p.reader buffered
  pub bytes : bs ≡ front p.next buffered

-- The parser after a call that leaves these bytes, this token and this request.
pub record Leaves {S : Type 0} (bs : Bytes) (t : RequestToken) (r : HttpRequest)
    (m : Outcome (RequestParser S)) : Type 0 where
  pub after : RequestParser S
  pub result : m ≡ returned after
  pub at : At bs after
  pub token : after.current ≡ t
  pub request : after.request ≡ r

-- The bytes of a string, up to a delimiter.
abbrev pub in_string : Bytes → ℕ → Bool
in_string delimiters c = is_text c && not (strchr delimiters c)

is_text-char : (c : ℕ) → is_text c ≡ true → char_to_int c ≡ pos c
is_text-char c h = ground arith

module _ {S : Type 0} (io : Stream S) where
  -- The parser after one character.
  pub record Next (p : RequestParser S) (c : ℕ) (cs : Bytes) : Type 0 where
    pub after : RequestParser S
    pub result : next_char io p ≡ (pos c, after)
    pub at : At cs after
    pub spent : after.next ≡ 0
    pub token : after.current ≡ p.current
    pub request : after.request ≡ p.request

  pub next_char_lem :
      (p : RequestParser S) (c : ℕ) (cs : Bytes) → At (c ∷ cs) p → is_text c ≡ true → Next p c cs
  unfolding next_char
  next_char_lem p c cs a t = elim (Bool-cases (p.next == 0)) [
    | inl z ↦
        let same : a.buffered ≡ c ∷ cs =
          sym (a.bytes ∙ ap (λ b. if b then a.buffered else p.next ∷ a.buffered) z) in
        let r = read-Buffers io p.reader c cs (subst (Buffers p.reader) same a.ready) in
        record {
          after = record p { reader = r.after };
          result = rw z (
              ap (λ (m : ℤ × Reader S). (m.0, record p { reader = m.1 })) r.result
              ∙ ap (λ x. (x, record p { reader = r.after })) (is_text-char c t));
          at = record {
            buffered = cs;
            ready = r.rest;
            bytes = sym (ap (λ b. if b then cs else p.next ∷ cs) z);
          };
          spent = ground arith;
          token = refl;
          request = refl;
        }
    | inr z ↦
        let same : c ∷ cs ≡ p.next ∷ a.buffered =
          a.bytes ∙ ap (λ b. if b then a.buffered else p.next ∷ a.buffered) z in
        let first : p.next ≡ c = cc in
        record {
          after = record p { next = 0 };
          result =
              rw z (ap (λ x. (x, record p { next = 0 })) (ap char_to_int first ∙ is_text-char c t));
          at = record { buffered = a.buffered; ready = a.ready; bytes = cc };
          spent = refl;
          token = refl;
          request = refl;
        }
  ]

  -- A token of one character.
  pub next_token-space :
      (fuel : ℕ) (p : RequestParser S) (cs : Bytes)
      → At (b' ' ∷ cs) p
      → Leaves cs (record (p.current) { type = TokenType.space }) p.request (next_token io fuel p)
  unfolding next_token
  next_token-space fuel p cs a =
      let n = next_char_lem p b' ' cs a refl in
      record {
        after = set_type io n.after TokenType.space;
        result = rw n.result refl;
        at = record { buffered = n.at.buffered; ready = n.at.ready; bytes = n.at.bytes };
        token = ap (λ (t : RequestToken). record t { type = TokenType.space }) n.token;
        request = n.request;
      }

  pub next_token-colon :
      (fuel : ℕ) (p : RequestParser S) (cs : Bytes)
      → At (b':' ∷ cs) p
      → Leaves cs (record (p.current) { type = TokenType.colon }) p.request (next_token io fuel p)
  unfolding next_token
  next_token-colon fuel p cs a =
      let n = next_char_lem p b':' cs a refl in
      record {
        after = set_type io n.after TokenType.colon;
        result = rw n.result refl;
        at = record { buffered = n.at.buffered; ready = n.at.ready; bytes = n.at.bytes };
        token = ap (λ (t : RequestToken). record t { type = TokenType.colon }) n.token;
        request = n.request;
      }

  pub next_token-new_line :
      (fuel : ℕ) (p : RequestParser S) (cs : Bytes)
      → At (b'\r' ∷ b'\n' ∷ cs) p
      → (l : Leaves cs
          (record (p.current) { type = TokenType.new_line })
          p.request
          (next_token io fuel p))
        × (l.after.next ≡ 0)
  unfolding next_token
  next_token-new_line fuel p cs a =
      let n = next_char_lem p b'\r' (b'\n' ∷ cs) a refl in
      let m = next_char_lem n.after b'\n' cs n.at refl in
      (
        record {
          after = set_type io m.after TokenType.new_line;
          result = rw n.result (rw m.result refl);
          at = record { buffered = m.at.buffered; ready = m.at.ready; bytes = m.at.bytes };
          token =
              ap (λ (t : RequestToken). record t { type = TokenType.new_line }) (m.token ∙ n.token);
          request = m.request ∙ n.request;
        },
        m.spent,
      )

  collect_more :
      (fuel : ℕ) (delimiters : Bytes) (c d : ℕ) (cs : Bytes) (p : RequestParser S)
      → in_string delimiters c ≡ true
      → (n : Next (push_char io p (pos c)) d cs)
      → collect io (suc fuel) delimiters (pos c) p ≡ collect io fuel delimiters (pos d) n.after
  unfolding collect
  collect_more fuel delimiters c d cs p h n =
      let e : is_end delimiters (pos c) ≡ false = ground arith in rw (e, n.result) refl

  collect_end :
      (fuel : ℕ) (delimiters : Bytes) (d : ℕ) (p : RequestParser S)
      → is_text d ≡ true
      → strchr delimiters d ≡ true
      → collect io (suc fuel) delimiters (pos d) p ≡ returned (rewind io p d)
  unfolding collect
  collect_end fuel delimiters d p t h =
      let same : d % 256 ≡ d = ground arith in
      let e : is_end delimiters (pos d) ≡ true = ap (strchr delimiters) same ∙ h in
      rw e (ap (λ x. returned (rewind io p x)) same)

  given_back :
      (p : RequestParser S) (d : ℕ) (rest : Bytes)
      → At rest p
      → p.next ≡ 0
      → is_text d ≡ true
      → At (d ∷ rest) (rewind io p d)
  given_back p d rest a z t =
      let e : (d == 0) ≡ false = ground arith in
      let same : rest ≡ a.buffered = a.bytes ∙ ap (λ k. front k a.buffered) z in
      record {
        buffered = a.buffered;
        ready = a.ready;
        bytes = ap (◌∷◌ d) same ∙ ap (λ b. if b then a.buffered else d ∷ a.buffered) (sym e);
      }

  push_char-token :
      (p : RequestParser S) (c : ℕ)
      → is_text c ≡ true
      → (push_char io p (pos c)).current
        ≡ record (p.current) { value = p.current.value ++ (c ∷ []) }
  push_char-token p c t =
      ap
        (λ x.
          let t : RequestToken = record (p.current) { value = p.current.value ++ (x ∷ []) } in t)
        {x = c % 256} {y = c} (ground arith)

  -- The loop collects a string, and gives the delimiter back.
  pub collect-string :
      (w : Bytes) (fuel : ℕ) (delimiters : Bytes) (c d : ℕ) (rest : Bytes) (p : RequestParser S)
      → p.next ≡ 0
      → At (w ++ (d ∷ rest)) p
      → in_string delimiters c ≡ true
      → all (in_string delimiters) w ≡ true
      → is_text d ≡ true
      → strchr delimiters d ≡ true
      → length w + 1 < fuel
      → Leaves
          (d ∷ rest)
          (record (p.current) { value = p.current.value ++ (c ∷ w) })
          p.request
          (collect io fuel delimiters (pos c) p)
  collect-string w zero delimiters c d rest p z a hc hw td hd f = absurd (omega arith)
  collect-string w (suc zero) delimiters c d rest p z a hc hw td hd f = absurd (omega arith)
  collect-string [] (suc (suc fuel)) delimiters c d rest p z a hc hw td hd f =
      let n =
        next_char_lem (push_char io p (pos c)) d rest
          (record { buffered = a.buffered; ready = a.ready; bytes = a.bytes }) td in
      record {
        after = rewind io n.after d;
        result =
            collect_more (suc fuel) delimiters c d rest p hc n
            ∙ collect_end fuel delimiters d n.after td hd;
        at = given_back n.after d rest n.at n.spent td;
        token = n.token ∙ push_char-token p c (ground arith);
        request = n.request;
      }
  collect-string (x ∷ w) (suc (suc fuel)) delimiters c d rest p z a hc hw td hd f =
      let n =
        next_char_lem (push_char io p (pos c)) x (w ++ (d ∷ rest))
          (record { buffered = a.buffered; ready = a.ready; bytes = a.bytes }) (ground arith) in
      let l =
        collect-string w (suc fuel) delimiters x d rest n.after n.spent n.at (ground arith)
          (ground arith) td hd (omega arith) in
      record {
        after = l.after;
        result = collect_more (suc fuel) delimiters c x (w ++ (d ∷ rest)) p hc n ∙ l.result;
        at = l.at;
        token =
            l.token
            ∙ ap (λ (t : RequestToken). record t { value = t.value ++ (x ∷ w) })
                (n.token ∙ push_char-token p c (ground arith))
            ∙ ap (λ v. let t : RequestToken = record (p.current) { value = v } in t)
                (append_assoc p.current.value (c ∷ []) (x ∷ w));
        request = l.request ∙ n.request;
      }

  -- A word is a token, with the character after it given back.
  pub next_token-string :
      (c : ℕ) (w : Bytes) (fuel : ℕ) (d : ℕ) (rest : Bytes) (p : RequestParser S)
      → At ((c ∷ w) ++ (d ∷ rest)) p
      → all (in_string (codes " :\r\n")) (c ∷ w) ≡ true
      → is_text d ≡ true
      → strchr (codes " :\r\n") d ≡ true
      → length (c ∷ w) < fuel
      → Leaves
          (d ∷ rest)
          (record { type = TokenType.string; value = c ∷ w })
          p.request
          (next_token io fuel p)
  unfolding next_token
  next_token-string c w fuel d rest p a h td hd f =
      let n = next_char_lem p c (w ++ (d ∷ rest)) a (ground arith) in
      let s = start_string io n.after in
      let l =
        collect-string w fuel (codes " :\r\n") c d rest s n.spent
          (record { buffered = n.at.buffered; ready = n.at.ready; bytes = n.at.bytes })
          (ground arith) (ground arith) td hd (omega arith) in
      let e : ((c == b' ') ≡ false) × ((c == b':') ≡ false) × ((c == b'\r') ≡ false) =
        ground arith in
      record {
        after = l.after;
        result = rw (n.result, e.0, e.1, e.2) l.result;
        at = l.at;
        token = l.token;
        request = l.request ∙ n.request;
      }

  -- The value of a header, up to the end of its line.
  pub next_string-string :
      (c : ℕ) (w : Bytes) (fuel : ℕ) (rest : Bytes) (p : RequestParser S)
      → At ((c ∷ w) ++ (b'\r' ∷ rest)) p
      → (c == b' ') ≡ false
      → all (in_string (codes "\r\n")) (c ∷ w) ≡ true
      → length (c ∷ w) < fuel
      → Leaves
          (b'\r' ∷ rest)
          (record { type = TokenType.string; value = c ∷ w })
          p.request
          (next_string io fuel p)
  unfolding next_string skip_spaces
  next_string-string c w zero rest p a b h f = absurd (omega arith)
  next_string-string c w (suc fuel) rest p a b h f =
      let n = next_char_lem p c (w ++ (b'\r' ∷ rest)) a (ground arith) in
      let s = start_string io n.after in
      let l =
        collect-string w (suc fuel) (codes "\r\n") c b'\r' rest s n.spent
          (record { buffered = n.at.buffered; ready = n.at.ready; bytes = n.at.bytes })
          (ground arith) (ground arith) refl refl (omega arith) in
      let e : (c == b'\r') ≡ false = ground arith in
      record {
        after = l.after;
        result = rw (n.result, b, e) l.result;
        at = l.at;
        token = l.token;
        request = l.request ∙ n.request;
      }

  -- The same for a word that is not taken apart.
  pub next_token-word :
      (w : Bytes) (fuel : ℕ) (d : ℕ) (rest : Bytes) (p : RequestParser S)
      → At (w ++ (d ∷ rest)) p
      → w ≢ []
      → all (in_string (codes " :\r\n")) w ≡ true
      → is_text d ≡ true
      → strchr (codes " :\r\n") d ≡ true
      → length w < fuel
      → Leaves
          (d ∷ rest)
          (record { type = TokenType.string; value = w })
          p.request
          (next_token io fuel p)
  next_token-word [] fuel d rest p a n h td hd f = absurd (n refl)
  next_token-word (c ∷ w) fuel d rest p a n h td hd f =
      next_token-string c w fuel d rest p a h td hd f
