-- ===== src/Parameters/Compatible.antt =====
-- `deserialize_params` (modal/_serialization.py) where the declared format is not the one that the bytes were written in.
use modal_client.Prelude.{
  ◌≢◌, sym, subst, ◌≡◌, refl, ◌∙◌, ap, ◌⊎◌, inl, inr, none, [], Result, ok, err, arith,
}
use modal_client.Prelude.Names.{Names, IsNames}
use modal_client.Parameters.Values.{Value, bad_message}
use modal_client.Parameters.Sets.{
  Messages, ReadsBack, serialize_proto_params, deserialize_proto_params,
}
use modal_client.Parameters.Formats.{
  SerializationFormat, unspecified, pickle, proto, unknown, PickleError, deserialization_error,
  Params, after_pickle, after_proto, deserialize_params,
}
use modal_client.Parameters.RoundTrip.{IsSendable, deserialize_proto_params-serialize_proto_params}

abbrev pub IsKnown : SerializationFormat → Type 0
IsKnown unknown = ⊥
IsKnown _ = Unit

module _ {B : Type 0} (m : Messages B) (deserialize : B → Result PickleError Params) where
  reads_message :
      (b : B) (params : Names Value) (format : SerializationFormat)
      → IsKnown format
      → deserialize_proto_params m b ≡ ok params
      → (format ≡ proto) ⊎ (deserialize b ≡ err deserialization_error)
      → deserialize_params m deserialize b format ≡ ok ([], params)
  unfolding deserialize_params
  reads_message b params proto known as_proto apart =
      ap (λ r. after_proto r (deserialize b)) as_proto
  reads_message b params format known as_proto (inl message) =
      subst (λ t. deserialize_params m deserialize b t ≡ ok ([], params)) (sym message)
        (ap (λ r. after_proto r (deserialize b)) as_proto)
  reads_message b params unspecified known as_proto (inr as_pickle) =
      ap (after_pickle (deserialize b)) as_proto ∙ ap (λ r. after_pickle r (ok params)) as_pickle
  reads_message b params pickle known as_proto (inr as_pickle) =
      ap (after_pickle (deserialize b)) as_proto ∙ ap (λ r. after_pickle r (ok params)) as_pickle
  reads_message b params unknown known as_proto apart = absurd known

  reads_pickle :
      (b : B) (params : Params) (format : SerializationFormat)
      → IsKnown format
      → (format ≢ proto) ⊎ (deserialize_proto_params m b ≡ err bad_message)
      → deserialize b ≡ ok params
      → deserialize_params m deserialize b format ≡ ok params
  unfolding deserialize_params
  reads_pickle b params unspecified known apart as_pickle =
      ap (λ r. after_pickle r (deserialize_proto_params m b)) as_pickle
  reads_pickle b params pickle known apart as_pickle =
      ap (λ r. after_pickle r (deserialize_proto_params m b)) as_pickle
  reads_pickle b params proto known (inl no_message) as_pickle = absurd (no_message refl)
  reads_pickle b params proto known (inr as_proto) as_pickle =
      ap (λ r. after_proto r (deserialize b)) as_proto
      ∙ ap (after_proto (err bad_message)) as_pickle
  reads_pickle b params unknown known apart as_pickle = absurd known

  not_a_message : (b : B) → m.from_bytes b ≡ none → deserialize_proto_params m b ≡ err bad_message
  unfolding deserialize_proto_params
  not_a_message b e = rw (e, deserialize_proto_params) refl

ok-injective : {E A : Type 0} (a b : A) → ◌≡◌ {A = Result E A} (ok a) (ok b) → a ≡ b
ok-injective a b e = ground (arith, e)

-- Parameters (with names that differ, values of the registered types and integers of at most 64 bits) that were sent as a
-- message are read back in the same order, with no positional arguments, if the declared format is the message, or is the
-- pickle and these bytes do not unpickle; and what was pickled is read as it is unpickled, if the declared format is the
-- pickle, or is the message and these bytes do not parse as one.
pub deserialize_params-any_format :
    {B : Type 0} (m : Messages B) (deserialize : B → Result PickleError Params)
    (payload : Names Value) (format : SerializationFormat) (serialized pickled : B)
    (params : Params)
    → ReadsBack m
    → IsNames payload
    → IsSendable payload
    → IsKnown format
    → serialize_proto_params m payload ≡ ok serialized
    → (format ≡ proto) ⊎ (deserialize serialized ≡ err deserialization_error)
    → deserialize pickled ≡ ok params
    → (format ≢ proto) ⊎ (m.from_bytes pickled ≡ none)
    → (deserialize_params m deserialize serialized format ≡ ok ([], payload))
      × (deserialize_params m deserialize pickled format ≡ ok params)
deserialize_params-any_format m deserialize payload format serialized pickled params reads names
      sendable known sent no_pickle unpickled no_message =
    let (written, sent_too, back) =
      deserialize_proto_params-serialize_proto_params m payload reads names sendable in
    let same : written ≡ serialized = ok-injective written serialized (sym sent_too ∙ sent) in
    let read : deserialize_proto_params m serialized ≡ ok payload =
      subst (λ b. deserialize_proto_params m b ≡ ok payload) same back in
    (
      reads_message m deserialize serialized payload format known read no_pickle,
      reads_pickle m deserialize pickled params format known (parse no_message) unpickled,
    )
  where
    parse :
        (format ≢ proto) ⊎ (m.from_bytes pickled ≡ none)
        → (format ≢ proto) ⊎ (deserialize_proto_params m pickled ≡ err bad_message)
    parse (inl other) = inl other
    parse (inr no_message) = inr (not_a_message m deserialize pickled no_message)
