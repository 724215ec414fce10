-- ===== src/Protocol/Rows.antt =====
-- protocol.go: `WriteColumnDefinition` and `WriteTextRow`. The texts that
-- `fmt` and `time` make of a value are parameters.
pub mod RoundTrip
use staravail.Common.{ℕ, List, [], ◌∷◌, ◌++◌, Bool, true, false, Option, none, some}
use staravail.Protocol.Base.{Result, bytes_le}
use staravail.Protocol.LenEnc.{write_length_encoded_string}
use staravail.Protocol.Packet.{MySqlProtocol, write_packet}

pub record Field : Type 0 where
  pub database : List ℕ
  pub table : List ℕ
  pub org_table : List ℕ
  pub name : List ℕ
  pub org_name : List ℕ
  pub charset : ℕ
  pub length : ℕ
  pub type : ℕ
  pub flags : ℕ
  pub decimals : ℕ

unfoldable pub column_names : Field → List ℕ
column_names f =
    write_length_encoded_string
      (write_length_encoded_string
        (write_length_encoded_string
          (write_length_encoded_string
            (write_length_encoded_string (write_length_encoded_string [] (b'd' ∷ b'e' ∷ b'f' ∷ []))
              f.database)
            f.table)
          f.org_table)
        f.name)
      f.org_name

unfoldable pub column_payload : Field → List ℕ
column_payload f =
    column_names f
    ++ (0x0c
        ∷ f.charset
        ∷ 0
        ∷ (bytes_le 4 f.length ++ (f.type ∷ (bytes_le 2 f.flags ++ (f.decimals ∷ 0 ∷ 0 ∷ [])))))

unfoldable pub write_column_definition : Field → MySqlProtocol → MySqlProtocol × Result (Unit {0})
write_column_definition f = write_packet (column_payload f)

-- A value of a row, by the types that `WriteTextRow` tells apart. Words and instants come as
-- numbers, a float as its bits, and `other` is a value of any other type.
pub data Value : Type 0 where
  nil : Value
  string bytes : List ℕ → Value
  signed unsigned : ℕ → Value
  float32 float64 : ℕ → Value
  bool : Bool → Value
  time : ℕ → Value
  other : ℕ → Value

-- What `fmt.Sprintf` with `%d`, `%f` and `%v`, and `time.Time.Format` make of a value.
pub record Formats : Type 0 where
  pub signed_text : ℕ → List ℕ
  pub unsigned_text : ℕ → List ℕ
  pub float32_text : ℕ → List ℕ
  pub float64_text : ℕ → List ℕ
  pub time_text : ℕ → List ℕ
  pub other_text : ℕ → List ℕ

-- "Convert value to string based on type", with `none` for NULL
unfoldable pub value_text : Formats → Value → Option (List ℕ)
value_text f nil = none
value_text f (string v) = some v
value_text f (bytes v) = some v
value_text f (signed v) = some (f.signed_text v)
value_text f (unsigned v) = some (f.unsigned_text v)
value_text f (float32 v) = some (f.float32_text v)
value_text f (float64 v) = some (f.float64_text v)
value_text f (bool true) = some (b'1' ∷ [])
value_text f (bool false) = some (b'0' ∷ [])
value_text f (time v) = some (f.time_text v)
value_text f (other v) = some (f.other_text v)

unfoldable pub add_column : List ℕ → Option (List ℕ) → List ℕ
add_column buffer none = buffer ++ (0xfb ∷ [])
add_column buffer (some str) = write_length_encoded_string buffer str

-- "Add each column"
unfoldable pub text_row : Formats → List ℕ → List Value → List ℕ
text_row f buffer [] = buffer
text_row f buffer (val ∷ row) = text_row f (add_column buffer (value_text f val)) row

unfoldable pub write_text_row :
    Formats → List Value → MySqlProtocol → MySqlProtocol × Result (Unit {0})
write_text_row f row = write_packet (text_row f [] row)
