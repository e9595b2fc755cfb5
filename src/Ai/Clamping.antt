-- ===== src/Ai/Clamping.antt =====
-- src/modules/ai/scan/report-review-clamp.ts: what is left of a model's answer.
use critiq_be.Prelude.{
  ℕ, zero, suc, ◌+◌, ◌-◌, ◌≤◌, ◌≡◌, arith, Bool, inl, inr, Option, none, some, [], ◌∷◌, Text, ltb,
  leb, length, length-append, take, get_elem?, if◌then◌else◌, Bool-cases,
}
use mathlib.Core.List.{reverse, reverse_aux}
use critiq_be.Similarity.{trim_start}
use critiq_be.Ai.Clamp.{
  ellipsis, is_stop, keeps_enough, sentence_end, last_space, cut_at_sentence, cut_at_word, cut_text,
  trim_end, truncate_text,
}

length-take-le : (n : ℕ) (s : Text) → (length (take n s) ≤ n) × (length (take n s) ≤ length s)
length-take-le zero s = (omega arith, omega arith)
length-take-le (suc n) [] = (omega arith, omega arith)
length-take-le (suc n) (c ∷ s) =
    let (a, b) = length-take-le n s in (omega (arith, a), omega (arith, b))

length-trim_start : (is_space : ℕ → Bool) (s : Text) → length (trim_start is_space s) ≤ length s
unfolding trim_start
length-trim_start is_space [] = omega arith
length-trim_start is_space (c ∷ s) = ground (arith, length-trim_start is_space s)

length-reverse_aux : (s r : Text) → length (reverse_aux s r) ≡ length s + length r
length-reverse_aux [] r = omega arith
length-reverse_aux (c ∷ s) r = omega (arith, length-reverse_aux s (c ∷ r))

length-reverse : (s : Text) → length (reverse s) ≡ length s
length-reverse s = omega (arith, length-reverse_aux s [])

length-trim_end : (is_space : ℕ → Bool) (s : Text) → length (trim_end is_space s) ≤ length s
unfolding trim_end
length-trim_end is_space s =
    let a = length-reverse (trim_start is_space (reverse s)) in
    let b = length-trim_start is_space (reverse s) in
    let c = length-reverse s in omega (arith, a, b, c)

cut_at_sentence-le : (head : Text) (o : Option ℕ) → length (cut_at_sentence head o) ≤ length head
cut_at_sentence-le head none = omega arith
cut_at_sentence-le head (some i) =
    (length-take-le (if is_stop (get_elem? head i) then i + 1 else i) head).1

cut_at_word-le : (head : Text) (o : Option ℕ) → length (cut_at_word head o) ≤ length head
cut_at_word-le head none = omega arith
cut_at_word-le head (some i) = elim (Bool-cases (ltb 0 i)) [
  | inl e ↦ rw e (length-take-le i head).1
  | inr e ↦ rw e (omega arith)
]

cut_text-le :
    (is_space : ℕ → Bool) (room : ℕ) (head : Text)
    → length (cut_text is_space room head) ≤ length head
unfolding cut_text
cut_text-le is_space room head = elim (Bool-cases (keeps_enough room (sentence_end head))) [
  | inl e ↦ rw e (cut_at_sentence-le head (sentence_end head))
  | inr e ↦ rw e (cut_at_word-le head (last_space is_space head))
]

-- A text is never longer than the limit that it is cut to, when the limit leaves room for the mark.
pub truncate_text-le :
    (is_space : ℕ → Bool) (text : Text) (limit : ℕ)
    → 1 ≤ limit
    → length (truncate_text is_space text limit) ≤ limit
unfolding truncate_text
truncate_text-le is_space text limit positive = elim (Bool-cases (leb (length text) limit)) [
  | inl e ↦ rw e (ground (arith, e))
  | inr e ↦ rw e (
      let head = take (limit - 1) text in
      let a = length-append (trim_end is_space (cut_text is_space (limit - 1) head)) ellipsis in
      let b = length-trim_end is_space (cut_text is_space (limit - 1) head) in
      let c = cut_text-le is_space (limit - 1) head in
      let d = (length-take-le (limit - 1) text).0 in omega (arith, a, b, c, d, positive))
]
