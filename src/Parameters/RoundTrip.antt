-- ===== src/Parameters/RoundTrip.antt =====
-- What `serialize_proto_params` writes, `deserialize_proto_params` reads (modal/_serialization.py).
use Prim.Native.String.{String}
use modal_client.Prelude.{
  ◌≡◌, refl, subst, sym, ◌∙◌, ap, Bool, true, false, List, [], ◌∷◌, ◌++◌, append-nil, append_assoc,
  All, ok, arith,
}
use modal_client.Prelude.Names.{Names, IsNames, set_name-new, has_name-before}
use modal_client.Parameters.Values.{
  Value, int, str, bytes, bool, ParameterValue, int_type, int_value, fits_int64, encode, decode,
  decode_as,
}
use modal_client.Parameters.Sets.{
  Messages, ReadsBack, encode_parameter_value, encode_all, decode_all, serialize_proto_params,
  deserialize_proto_params,
}

-- a value that can be sent: of a registered type itself, and an integer of at most 64 bits
abbrev pub is_sendable : Value → Bool
is_sendable (int n) = fits_int64 n
is_sendable (str _) = true
is_sendable (bytes _) = true
is_sendable (bool _) = true
is_sendable _ = false

abbrev pub IsSendable : Names Value → Type 0
IsSendable params = All (λ p. is_sendable p.1 ≡ true) params

-- one parameter
decode-encode :
    (name : String) (v : Value)
    → is_sendable v ≡ true
    → (p : ParameterValue) × (encode_parameter_value name v ≡ ok p)
      × (p.name ≡ name)
      × (decode p ≡ ok v)
unfolding encode decode_as
decode-encode name (int n) h =
    (record { name = name; type_enum = int_type; value = int_value n }, rw h refl, refl, refl)
decode-encode name (str s) h = (_, refl, refl, refl)
decode-encode name (bytes b) h = (_, refl, refl, refl)
decode-encode name (bool b) h = (_, refl, refl, refl)
decode-encode name v h = absurd (ground (arith, h))

-- a set that can be sent is encoded, and decoding adds it to what was decoded before
decode_all-encode_all :
    (params : Names Value)
    → IsSendable params
    → (ps : List ParameterValue) × (encode_all params ≡ ok ps)
      × ((d : Names Value) → IsNames (d ++ params) → decode_all ps d ≡ ok (d ++ params))
unfolding encode_all decode_all
decode_all-encode_all [] h = ([], refl, λ d names. ap ok (sym (append-nil d)))
decode_all-encode_all ((name, v) ∷ params) (one, h) =
    let (p, encoded, named, decoded) = decode-encode name v one in
    let (ps, rest, all) = decode_all-encode_all params h in
    (
      p ∷ ps,
      rw (encoded, rest) refl,
      λ d names.
          rw (decoded, named, set_name-new name v d (has_name-before name v d params names))
            (all (d ++ (name, v) ∷ [])
                (subst IsNames (sym (append_assoc d ((name, v) ∷ []) params)) names)
              ∙ ap ok (append_assoc d ((name, v) ∷ []) params)),
    )

-- A set of parameters with names that differ, values of the registered types and integers of at most 64 bits is serialized,
-- and its bytes give the same set, in the same order.
pub deserialize_proto_params-serialize_proto_params :
    {B : Type 0} (m : Messages B) (params : Names Value)
    → ReadsBack m
    → IsNames params
    → IsSendable params
    → (serialized : B) × (serialize_proto_params m params ≡ ok serialized)
      × (deserialize_proto_params m serialized ≡ ok params)
unfolding serialize_proto_params deserialize_proto_params
deserialize_proto_params-serialize_proto_params m params reads names sendable =
    let (ps, encoded, decoded) = decode_all-encode_all params sendable in
    (m.to_bytes ps, rw encoded refl, rw (reads ps, deserialize_proto_params) (decoded [] names))
