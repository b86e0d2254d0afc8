-- ===== src/Parameters/Formats.antt =====
-- `deserialize_params` of modal/_serialization.py: the parameters in the format that the function declares, or in the
-- other one if that fails. Unpickling is a parameter.
use modal_client.Prelude.{List, [], Result, ok, err}
use modal_client.Prelude.Names.{Names}
use modal_client.Parameters.Values.{Value, ParameterError, bad_message}
use modal_client.Parameters.Sets.{Messages, deserialize_proto_params}

-- api_pb2.ClassParameterInfo.ParameterSerializationFormat
pub data SerializationFormat : Type 0 where
  unspecified pickle proto unknown : SerializationFormat

-- `DeserializationError`, or another exception
pub data PickleError : Type 0 where
  deserialization_error other_error : PickleError

pub data ParamsError : Type 0 where
  in_message : ParameterError → ParamsError
  in_pickle : PickleError → ParamsError
  unknown_format : ParamsError

-- `(args, kwargs)`
abbrev pub Params : Type 0
Params = List Value × Names Value

abbrev pub kwargs_or : PickleError → Result ParameterError (Names Value) → Result ParamsError Params
kwargs_or original (ok kwargs) = ok ([], kwargs)
kwargs_or original (err e) = err (in_pickle original)

abbrev pub pickled_or : ParameterError → Result PickleError Params → Result ParamsError Params
pickled_or original (ok params) = ok params
pickled_or original (err e) = err (in_message original)

-- the `except` clauses: of the errors of a message, only one that does not parse is caught
abbrev pub after_pickle :
    Result PickleError Params → Result ParameterError (Names Value) → Result ParamsError Params
after_pickle (ok params) as_proto = ok params
after_pickle (err deserialization_error) as_proto = kwargs_or deserialization_error as_proto
after_pickle (err other_error) as_proto = err (in_pickle other_error)

abbrev pub after_proto :
    Result ParameterError (Names Value) → Result PickleError Params → Result ParamsError Params
after_proto (ok kwargs) as_pickle = ok ([], kwargs)
after_proto (err bad_message) as_pickle = pickled_or bad_message as_pickle
after_proto (err e) as_pickle = err (in_message e)

unfoldable pub deserialize_params :
    {B : Type 0}
    → Messages B
    → (B → Result PickleError Params)
    → B
    → SerializationFormat
    → Result ParamsError Params
deserialize_params m deserialize serialized_params unspecified =
    after_pickle (deserialize serialized_params) (deserialize_proto_params m serialized_params)
deserialize_params m deserialize serialized_params pickle =
    after_pickle (deserialize serialized_params) (deserialize_proto_params m serialized_params)
deserialize_params m deserialize serialized_params proto =
    after_proto (deserialize_proto_params m serialized_params) (deserialize serialized_params)
deserialize_params m deserialize serialized_params unknown = err unknown_format
