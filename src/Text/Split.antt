-- ===== src/Text/Split.antt =====
-- `hiw_string_split`: the parts and the text.
use highway.Prelude.{
  ℕ, zero, suc, ◌+◌, ◌-◌, ◌≤◌, ◌<◌, ◌≡◌, inl, inr, refl, sym, ap, ◌∙◌, List, [], ◌∷◌, ◌++◌,
  append_assoc, map, Bytes, Lacks, length, take, drop, Outcome, ret, ◌>>=◌, ap_at, arith, ==-ne,
  ==-self, take-length-append, length-append,
}
use mathlib.Core.Path.{subst}
use highway.Text.{HiwString, IsView, bytes, string_set, split_loop, split}
use highway.Text.Seek.{seek_found, seek_missing, seek_none, find-Cut}

-- The parts with the delimiter between them.
abbrev pub join : ℕ → List Bytes → Bytes
join d [] = []
join d (p ∷ []) = p
join d (p ∷ q ∷ ps) = p ++ d ∷ join d (q ∷ ps)

-- The views of the parts in the text that is joined from them and goes on with `rest`.
abbrev pub views : ℕ → List Bytes → Bytes → List HiwString
views d [] rest = []
views d (p ∷ []) rest = string_set (p ++ rest) (length p) ∷ []
views d (p ∷ q ∷ ps) rest =
    string_set (p ++ d ∷ (join d (q ∷ ps) ++ rest)) (length p) ∷ views d (q ∷ ps) rest

-- No part but the last holds the delimiter; the last may, where there is no room for more.
abbrev pub IsParts : ℕ → ℕ → List Bytes → Type 0
IsParts d n [] = ⊥
IsParts d zero (p ∷ []) = Unit
IsParts d (suc n) (p ∷ []) = Lacks d p
IsParts d zero (p ∷ q ∷ ps) = ⊥
IsParts d (suc n) (p ∷ q ∷ ps) = Lacks d p × IsParts d n (q ∷ ps)

drop_past : (p : Bytes) (d : ℕ) (zs : Bytes) → drop (length p + 1) (p ++ d ∷ zs) ≡ zs
drop_past [] d zs = refl
drop_past (x ∷ p) d zs =
    ap_at (λ n. drop n (x ∷ (p ++ d ∷ zs))) (suc (length p) + 1) (suc (length p + 1)) (omega arith)
    ∙ drop_past p d zs

split_loop-join :
    (d k : ℕ) (ps : List Bytes) (rest : Bytes) (n : ℕ) (text : Bytes)
    → IsParts d k ps
    → n ≡ length (join d ps)
    → text ≡ join d ps ++ rest
    → split_loop d k n text ≡ ret (views d ps rest)
unfolding split_loop
split_loop-join d k [] rest n text h e t = absurd h
split_loop-join d zero (p ∷ []) rest n text h e t = rw (e, t)
split_loop-join d (suc k) (p ∷ []) rest n text h e t =
    rw (e, t) (rw (seek_missing d p rest h) (rw ==-self))
split_loop-join d zero (p ∷ q ∷ ps) rest n text h e t = absurd h
split_loop-join d (suc k) (p ∷ q ∷ ps) rest n text h e t =
    let size = length-append p (d ∷ join d (q ∷ ps)) in
    let apart : text ≡ p ++ d ∷ (join d (q ∷ ps) ++ rest) = t ∙ append_assoc p _ rest in
    rw apart (
      rw (seek_found d n p (join d (q ∷ ps) ++ rest) h.0 (omega arith)) (
        rw (==-ne (length p) n (omega arith)) (
          rw (
            split_loop-join d k (q ∷ ps) rest (n - (length p + 1))
              (drop (length p + 1) (p ++ d ∷ (join d (q ∷ ps) ++ rest))) h.1 (omega arith)
              (drop_past p d _)))))

-- `hiw_string_split` of at least one and at most `n` parts with the delimiter between them, of
-- which none but the last of `n` holds it, gives the views of those parts.
pub split-join :
    (d n : ℕ) (ps : List Bytes) (rest : Bytes)
    → IsParts d n ps
    → 0 < length (join d ps)
    → split (string_set (join d ps ++ rest) (length (join d ps))) d (suc n) ≡ ret (views d ps rest)
unfolding split
split-join d n ps rest h pos =
    rw (==-ne (length (join d ps)) 0 (omega arith), ==-ne (suc n) 0 (omega arith))
      (ap_at (λ k. split_loop d k (length (join d ps)) (join d ps ++ rest)) (suc n - 1) n
          (omega arith)
        ∙ split_loop-join d n ps rest (length (join d ps)) (join d ps ++ rest) h refl refl)

-- What a split of `n` bytes into at most `room` parts must come to: there is one list of parts that
-- spells the text and of which none holds the delimiter, but for the last of `room`.
pub record Splits (d room : ℕ) (text : Bytes) (o : Outcome (List HiwString)) : Type 0 where
  pub parts : List HiwString
  pub answer : o ≡ ret parts
  pub some_part : 0 < length parts
  pub fits : length parts ≤ room
  pub spells : join d (map bytes parts) ≡ text
  -- how many delimiters may be cut at
  pub cuts : ℕ
  pub cuts_room : suc cuts ≡ room
  pub apart : IsParts d cuts (map bytes parts)

join-cons :
    (d : ℕ) (p : Bytes) (ps : List Bytes) → 0 < length ps → join d (p ∷ ps) ≡ p ++ d ∷ join d ps
join-cons d p [] h = absurd (omega arith)
join-cons d p (q ∷ ps) h = refl

IsParts-cons :
    (d k : ℕ) (p : Bytes) (ps : List Bytes)
    → Lacks d p
    → IsParts d k ps
    → IsParts d (suc k) (p ∷ ps)
IsParts-cons d k p [] l h = absurd h
IsParts-cons d k p (q ∷ ps) l h = (l, h)

length-map-bytes : (vs : List HiwString) → length (map bytes vs) ≡ length vs
length-map-bytes [] = refl
length-map-bytes (v ∷ vs) = ap suc (length-map-bytes vs)

take_past :
    (n : ℕ) (xs : Bytes) (d : ℕ) (zs : Bytes)
    → length xs < n
    → take n (xs ++ d ∷ zs) ≡ xs ++ d ∷ take (n - (length xs + 1)) zs
take_past zero xs d zs h = absurd (omega arith)
take_past (suc n) [] d zs h = ap (λ k. d ∷ take k zs) (omega arith)
take_past (suc n) (x ∷ xs) d zs h =
    ap (λ u. x ∷ u)
      (take_past n xs d zs (omega arith) ∙ ap (λ k. xs ++ d ∷ take k zs) (omega arith))

split_loop-Splits :
    (d k n : ℕ) (text : Bytes)
    → n ≤ length text
    → Splits d (suc k) (take n text) (split_loop d k n text)
unfolding split_loop
split_loop-Splits d zero n text h = record {
  parts = string_set text n ∷ [];
  answer = refl;
  some_part = omega arith;
  fits = omega arith;
  spells = refl;
  cuts = zero;
  cuts_room = refl;
  apart = tt;
}
split_loop-Splits d (suc k) n text h = elim (find-Cut d n text h) [
  | inl l ↦ rw (seek_none d n text h l) (
      rw ==-self (record {
        parts = string_set text n ∷ [];
        answer = refl;
        some_part = omega arith;
        fits = omega arith;
        spells = refl;
        cuts = suc k;
        cuts_room = refl;
        apart = l;
      }))
  | inr (xs, rest, e, l, lt) ↦ rw e (
      rw (seek_found d n xs rest l lt) (
        rw (==-ne (length xs) n (omega arith)) (
          rw (drop_past xs d rest) (
            more xs rest l lt (
              split_loop-Splits d k (n - (length xs + 1)) rest
                (omega (arith, ap (λ (u : Bytes). length u) e, length-append xs (d ∷ rest))))))))
]
  where
    more :
        (xs rest : Bytes)
        → Lacks d xs
        → length xs < n
        → Splits d
            (suc k)
            (take (n - (length xs + 1)) rest)
            (split_loop d k (n - (length xs + 1)) rest)
        → Splits d (suc (suc k)) (take n (xs ++ d ∷ rest)) (
            split_loop d k (n - (length xs + 1)) rest >>= λ parts.
            ret (string_set (xs ++ d ∷ rest) (length xs) ∷ parts))
    more xs rest l lt s = rw s.answer (record {
      parts = string_set (xs ++ d ∷ rest) (length xs) ∷ s.parts;
      answer = refl;
      some_part = omega arith;
      fits = omega (arith, s.fits);
      spells =
          join-cons d _ (map bytes s.parts) (rw (length-map-bytes s.parts) (s.some_part))
          ∙ ap (λ u. u ++ d ∷ join d (map bytes s.parts)) (take-length-append xs (d ∷ rest))
          ∙ ap (λ u. xs ++ d ∷ u) s.spells
          ∙ sym (take_past n xs d rest lt);
      cuts = suc s.cuts;
      cuts_room = ap suc s.cuts_room;
      apart =
          IsParts-cons d s.cuts (bytes (string_set (xs ++ d ∷ rest) (length xs)))
            (map bytes s.parts) (subst (Lacks d) (sym (take-length-append xs (d ∷ rest))) l)
            s.apart;
    })

-- On a view that is not empty, with room for a part, `hiw_string_split` answers at least one and at
-- most `n` parts, which with the delimiter between them spell the text, and none of which holds the
-- delimiter, but for the last one where there are `n`.
pub split-Splits :
    (s : HiwString) (d n : ℕ) → IsView s → 0 < s.length → 0 < n → Splits d n (bytes s) (split s d n)
unfolding split
split-Splits s d zero v pos h = absurd (omega arith)
split-Splits s d (suc n) v pos h =
    rw (==-ne s.length 0 (omega arith), ==-ne (suc n) 0 (omega arith))
      (subst (λ k. Splits d (suc n) (bytes s) (split_loop d k s.length s.begin))
        (let e : n ≡ suc n - 1 = omega arith in e) (split_loop-Splits d n s.length s.begin v))
