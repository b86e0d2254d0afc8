-- ===== src/Parameters/Values.antt =====
-- `ProtoParameterSerdeRegistry` and the four encoders of modal/_type_manager.py.
use Prim.Native.String.{String}
use modal_client.Prelude.{ℕ, ◌^◌, ◌-◌, Bool, true, false, ◌&&◌, [], Result, ok, err, if◌then◌else◌}
use modal_client.Prelude.Int.{ℤ, pos, negsuc, leb_ℤ}
use modal_client.Blobs.Segment.{Bytes}

-- a Python value of one of the registered types, of a subclass of one (an IntEnum, say; bool has none), or of another
-- type, by its number
pub data Value : Type 0 where
  int : ℤ → Value
  str : String → Value
  bytes : Bytes → Value
  bool : Bool → Value
  int_subclass : ℤ → Value
  str_subclass : String → Value
  bytes_subclass : Bytes → Value
  other : ℕ → Value

-- api_pb2.ParameterType
pub data ParameterType : Type 0 where
  unspecified string_type int_type pickle_type bytes_type unknown list_type dict_type none_type
        bool_type :
      ParameterType

-- `value_oneof` of a ClassParameterValue
pub data ProtoValue : Type 0 where
  string_value : String → ProtoValue
  int_value : ℤ → ProtoValue
  pickle_value bytes_value : Bytes → ProtoValue
  bool_value : Bool → ProtoValue
  not_set : ProtoValue

-- api_pb2.ClassParameterValue
pub record ParameterValue : Type 0 where
  pub name : String
  pub type_enum : ParameterType
  pub value : ProtoValue

-- `InvalidError` for a type that is not registered, `TypeError` of a check, and the `ValueError` that protobuf raises for
-- an integer of more than 64 bits
pub data ParameterError : Type 0 where
  no_encoder no_decoder wrong_type out_of_range : ParameterError
  missing_parameter extra_parameter no_default : ParameterError
  bad_message : ParameterError

abbrev pub fits_int64 : ℤ → Bool
fits_int64 n = leb_ℤ (negsuc (2 ^ 63 - 1)) n && leb_ℤ n (pos (2 ^ 63 - 1))

abbrev unnamed : ParameterType → ProtoValue → ParameterValue
unnamed t v = record { name = ""; type_enum = t; value = v }

-- `encode`: the encoder of the value's own type, which is looked up as it is, without its base types
unfoldable pub encode : Value → Result ParameterError ParameterValue
encode (int n) = if fits_int64 n then ok (unnamed int_type (int_value n)) else err out_of_range
encode (str s) = ok (unnamed string_type (string_value s))
encode (bytes b) = ok (unnamed bytes_type (bytes_value b))
encode (bool b) = ok (unnamed bool_type (bool_value b))
encode _ = err no_encoder

-- a field that is not set reads as its default
abbrev pub int_field : ProtoValue → ℤ
int_field (int_value n) = n
int_field _ = pos 0

abbrev pub string_field : ProtoValue → String
string_field (string_value s) = s
string_field _ = ""

abbrev pub bytes_field : ProtoValue → Bytes
bytes_field (bytes_value b) = b
bytes_field _ = []

abbrev pub bool_field : ProtoValue → Bool
bool_field (bool_value b) = b
bool_field _ = false

-- `decode`: the decoder of the type in the message
unfoldable pub decode_as : ParameterType → ProtoValue → Result ParameterError Value
decode_as int_type v = ok (int (int_field v))
decode_as string_type v = ok (str (string_field v))
decode_as bytes_type v = ok (bytes (bytes_field v))
decode_as bool_type v = ok (bool (bool_field v))
decode_as _ v = err no_decoder

abbrev pub decode : ParameterValue → Result ParameterError Value
decode p = decode_as p.type_enum p.value

-- `isinstance(value, int)` holds of a bool, and of a value of a subclass
abbrev pub is_int : Value → Bool
is_int (int _) = true
is_int (bool _) = true
is_int (int_subclass _) = true
is_int _ = false

abbrev pub is_str : Value → Bool
is_str (str _) = true
is_str (str_subclass _) = true
is_str _ = false

abbrev pub is_bytes : Value → Bool
is_bytes (bytes _) = true
is_bytes (bytes_subclass _) = true
is_bytes _ = false

abbrev pub is_bool : Value → Bool
is_bool (bool _) = true
is_bool _ = false

abbrev or_type_error : Bool → Result {0, 0} ParameterError Unit
or_type_error b = if b then ok tt else err wrong_type

-- `validate_value_for_enum_type`: the check of the declared type
unfoldable pub validate_value : ParameterType → Value → Result {0, 0} ParameterError Unit
validate_value int_type v = or_type_error (is_int v)
validate_value string_type v = or_type_error (is_str v)
validate_value bytes_type v = or_type_error (is_bytes v)
validate_value bool_type v = or_type_error (is_bool v)
validate_value _ v = err no_decoder
