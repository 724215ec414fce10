-- ===== src/Write/Buffer/Queries.antt =====
-- The listing of the whole buffer.
use staravail.Common.{ℕ, ◌+◌, ◌-◌, ◌≤◌, ◌<◌, ◌≡◌, sym, ap, ◌∙◌, arith}
use staravail.Common.{
  List, [], ◌∷◌, map, length, take, drop, take-all, length-drop, drop-all, false, ltb, leb, ◌==◌,
}
use staravail.Common.{Bool-cases, none, inl, inr, leb→le, ltb→lt}
use staravail.Write.Types.{Entry, WriteBuffer}
use staravail.Write.Sort.{SortSlice}
use staravail.Write.Entries.Permutations.{length-perm}
use staravail.Write.Buffer.{newer, paginate, get_buffered_writes}

take_less : (n k : ℕ) (xs : List Entry) → length xs ≤ n → length xs ≤ k → take n xs ≡ take k xs
take_less n k xs h g = take-all n xs h ∙ sym (take-all k xs g)

-- A page is what its bounds say.
paginate_page :
    (limit offset : ℕ) (es : List Entry)
    → 0 < limit
    → paginate limit offset es ≡ map Entry.write (take limit (drop offset es))
unfolding paginate
paginate_page limit offset es h = elim (Bool-cases (leb (length es) offset)) [
  | inl c ↦
      rw (c, paginate, drop-all offset es (leb→le (length es) offset c))
        (sym (ap (map Entry.write) (take-all limit [] (omega arith))))
  | inr c ↦ elim (Bool-cases (ltb (length es) (offset + limit))) [
    | inl d ↦
        rw (c, d, paginate)
          (ap (map Entry.write) (
            take_less (length es - offset) limit (drop offset es)
              (omega (arith, length-drop offset es))
              (omega (arith, length-drop offset es, ltb→lt (length es) (offset + limit) d))))
    | inr d ↦
        let z : (limit == 0) ≡ false = ground arith in
        rw (c, d, z, paginate)
          (ap (λ (n : ℕ). map Entry.write (take n (drop offset es))) (omega arith))
  ]
]

paginate_all : (es : List Entry) → paginate (length es) 0 es ≡ map Entry.write es
unfolding paginate
paginate_all [] = ground arith
paginate_all (e ∷ es) =
    paginate_page (length (e ∷ es)) 0 (e ∷ es) (omega arith)
    ∙ ap (map Entry.write) (take-all (length (e ∷ es)) (e ∷ es) (omega arith))

pub all_listed :
    (s : SortSlice) (b : WriteBuffer)
    → get_buffered_writes s none (length b.entries) 0 b ≡ map Entry.write (s.sort newer b.entries)
unfolding get_buffered_writes
all_listed s b =
    rw (length-perm (s.sort_perm newer b.entries)) (paginate_all (s.sort newer b.entries))
