-- ===== src/Protocol/Rows/RoundTrip.antt =====
-- A text row read back by a client, column by column.
use staravail.Common.{
  ℕ, zero, suc, ◌+◌, ◌^◌, ◌<◌, ◌≡◌, refl, sym, ap, ◌∙◌, arith, List, [], ◌∷◌, ◌++◌, length, take,
  drop, map, All,
}
use staravail.Common.{
  length-append, take-append, drop-append, ◌==◌, if◌then◌else◌, false, Option, none, some, ltb,
  Bool-cases, inl, inr, ◌*◌, ◌%◌,
}
use staravail.Protocol.Base.{Result, ok, ◌>>=◌, uint_at, uint_le}
use staravail.Protocol.LenEnc.{
  read_length_encoded_integer, write_length_encoded_string, write_length_encoded_integer,
}
use staravail.Protocol.LenEnc.RoundTrip.{
  encoding, encoded_size, write-append, length-encoding, read-write,
}
use staravail.Protocol.Rows.{Value, Formats, value_text, add_column, text_row}
use mathlib.Core.List.{append_assoc, append-nil}

-- What a client does: 0xfb is NULL, and anything else is a length-encoded text.
abbrev pub read_columns : ℕ → List ℕ → ℕ → Result (List (Option (List ℕ)))
read_columns zero bytes pos = ok []
read_columns (suc n) bytes pos = do
  marker ← uint_at 1 bytes pos
  if marker == 0xfb then (do row ← read_columns n bytes (pos + 1); ok (none ∷ row)) else (do
    (len, size) ← read_length_encoded_integer bytes pos
    row ← read_columns n bytes (pos + size + len)
    ok (some (take len (drop (pos + size) bytes)) ∷ row))

-- The row as its bytes.
abbrev row_bytes : List (Option (List ℕ)) → List ℕ
row_bytes [] = []
row_bytes (none ∷ row) = 0xfb ∷ row_bytes row
row_bytes (some str ∷ row) = encoding (length str % 2 ^ 64) ++ (str ++ row_bytes row)

-- A text that a uint64 can count.
abbrev pub Fits : Option (List ℕ) → Type 0
Fits none = Unit
Fits (some str) = length str < 2 ^ 64

string_append :
    (buffer str rest : List ℕ)
    → write_length_encoded_string buffer str ++ rest
      ≡ buffer ++ (encoding (length str % 2 ^ 64) ++ (str ++ rest))
unfolding write_length_encoded_string
string_append buffer str rest = rw (write-append buffer (length str % 2 ^ 64)) (
    append_assoc (buffer ++ encoding (length str % 2 ^ 64)) str rest
    ∙ append_assoc buffer (encoding (length str % 2 ^ 64)) (str ++ rest))

column_append :
    (buffer : List ℕ) (column : Option (List ℕ)) (row : List (Option (List ℕ)))
    → add_column buffer column ++ row_bytes row ≡ buffer ++ row_bytes (column ∷ row)
unfolding add_column
column_append buffer none row = append_assoc buffer (0xfb ∷ []) (row_bytes row)
column_append buffer (some str) row = string_append buffer str (row_bytes row)

text_row-bytes :
    (f : Formats) (buffer : List ℕ) (row : List Value)
    → text_row f buffer row ≡ buffer ++ row_bytes (map (value_text f) row)
unfolding text_row
text_row-bytes f buffer [] = sym (append-nil buffer)
text_row-bytes f buffer (val ∷ row) =
    text_row-bytes f (add_column buffer (value_text f val)) row
    ∙ column_append buffer (value_text f val) (map (value_text f) row)

-- The first byte of an encoding is not the one of NULL.
marker_lem :
    (v : ℕ) (rest : List ℕ)
    → (b : ℕ) × (uint_le 1 (encoding v ++ rest) ≡ ok b) × ((b == 0xfb) ≡ false)
unfolding write_length_encoded_integer
marker_lem v rest = elim (Bool-cases (ltb v 251)) [
  | inl h ↦ (v % 256 + 256 * 0, rw h refl, ground (arith, h))
  | inr h ↦ elim (Bool-cases (ltb v 65536)) [
    | inl k ↦ (0xfc + 256 * 0, rw (h, k) refl, refl)
    | inr k ↦ elim (Bool-cases (ltb v 16777216)) [
      | inl l ↦ (0xfd + 256 * 0, rw (h, k, l) refl, refl)
      | inr l ↦ (0xfe + 256 * 0, rw (h, k, l) refl, refl)
    ]
  ]
]

-- The step over a text: its bytes behind `front`, its length, and where it stands.
module _ (front str rest : List ℕ) (fits : length str < 2 ^ 64) where
  abbrev behind : List ℕ
  behind = front ++ (encoding (length str) ++ (str ++ rest))

  length_read :
      read_length_encoded_integer behind (length front) ≡ ok (length str, encoded_size (length str))
  length_read =
      ap (λ (bytes : List ℕ). read_length_encoded_integer bytes (length front))
        (sym (append_assoc front (encoding (length str)) (str ++ rest))
          ∙ ap (λ (bytes : List ℕ). bytes ++ (str ++ rest)) (sym (write-append front (length str))))
      ∙ read-write front (str ++ rest) (length str) fits

  dropped : drop (length front + encoded_size (length str)) behind ≡ str ++ rest
  dropped =
      let whole : length (front ++ encoding (length str))
          ≡ length front + encoded_size (length str) =
        omega (arith, length-append front (encoding (length str)), length-encoding (length str)) in
      rw (← whole, ← append_assoc front (encoding (length str)) (str ++ rest))
        (drop-append (front ++ encoding (length str)) (str ++ rest))

  passed : (front ++ (encoding (length str) ++ str)) ++ rest ≡ behind
  passed =
      append_assoc front (encoding (length str) ++ str) rest
      ∙ ap (λ (l : List ℕ). front ++ l) (append_assoc (encoding (length str)) str rest)

  passed_length :
      length (front ++ (encoding (length str) ++ str))
      ≡ length front + encoded_size (length str) + length str
  passed_length = omega (
    arith,
    length-append front (encoding (length str) ++ str),
    length-append (encoding (length str)) str,
    length-encoding (length str),
  )

read_row :
    (front : List ℕ) (row : List (Option (List ℕ)))
    → All Fits row
    → read_columns (length row) (front ++ row_bytes row) (length front) ≡ ok row
read_row front [] a = refl
read_row front (none ∷ row) a =
    let next = read_row (front ++ (0xfb ∷ [])) row a.1 in
    let next' : read_columns (length row) (front ++ (0xfb ∷ row_bytes row)) (length front + 1)
        ≡ ok row =
      rw (append_assoc front (0xfb ∷ []) (row_bytes row), length-append front (0xfb ∷ [])) at
        next in
    rw (drop-append front (0xfb ∷ row_bytes row), next') refl
read_row front (some str ∷ row) a =
    let rest = row_bytes row in
    let small : length str % 2 ^ 64 ≡ length str = omega (arith, a.0) in
    let next = read_row (front ++ (encoding (length str) ++ str)) row a.1 in
    let next' : read_columns (length row) (behind front str rest a.0)
          (length front + encoded_size (length str) + length str)
        ≡ ok row =
      rw (passed front str rest a.0, passed_length front str rest a.0) at next in
    let (b, first, differs) = marker_lem (length str) (str ++ rest) in
    rw
      (
        small,
        drop-append front (encoding (length str) ++ (str ++ rest)),
        first,
        differs,
        length_read front str rest a.0,
        next',
        dropped front str rest a.0,
        take-append str rest,
      )
      refl

length-map : (f : Formats) (row : List Value) → length (map (value_text f) row) ≡ length row
length-map f [] = refl
length-map f (val ∷ row) = ap (λ (n : ℕ). suc n) (length-map f row)

-- A text row of values, whose texts are shorter than 2^64, is read back as those texts, column by
-- column, by a client that takes 0xfb for NULL and anything else for a length-encoded text.
pub read_columns-text_row :
    (f : Formats) (row : List Value)
    → All Fits (map (value_text f) row)
    → read_columns (length row) (text_row f [] row) 0 ≡ ok (map (value_text f) row)
read_columns-text_row f row a =
    ap (λ (bytes : List ℕ). read_columns (length row) bytes 0) (text_row-bytes f [] row)
    ∙ ap (λ (n : ℕ). read_columns n (row_bytes (map (value_text f) row)) 0) (sym (length-map f row))
    ∙ read_row [] (map (value_text f) row) a
