-- ===== src/Tests/Json.antt =====
-- JSON of requests and responses: a format that is read back, in which "{}" is the one object.
use go_achat_node.Prelude.{
  ◌≡◌, refl, Option, none, some, List, [], if◌then◌else◌, map, Bytes, codes, beq, ℕ, zero, suc,
}
use go_achat_node.Types.Codecs.{Codec, CodecLaws, to_bytes}
use go_achat_node.Rpc.{Param, text, object, other, Req, Result, nil, string, RspError, Rsp}
use go_achat_node.Rpc.Wire.{RpcJson}
use go_achat_node.Tests.Coder.{Coder, bytes, number, pair, list, option, codec, codec-CodecLaws}

abbrev pub ReqData : Type 0
ReqData = (Bytes × Bytes) × (Bytes × List (ℕ × Bytes))

abbrev pub from_param : Param Bytes → ℕ × Bytes
from_param (text s) = (0, s)
from_param (object o) = (1, o)
from_param other = (2, [])

abbrev pub to_param : ℕ × Bytes → Param Bytes
to_param (zero, s) = text s
to_param (suc zero, o) = object o
to_param (suc (suc _), _) = other

abbrev pub from_req : Req Bytes → ReqData
from_req r = ((r.id, r.token), (r.method, map from_param r.params))

abbrev pub to_req : ReqData → Req Bytes
to_req ((id, token), (method, params)) = record {
  id = id;
  token = token;
  method = method;
  params = map to_param params;
}

unfoldable pub req_data : Coder ReqData
req_data = pair (pair bytes bytes) (pair bytes (list (pair number bytes)))

-- Of the results only strings are kept.
abbrev pub RspData : Type 0
RspData = (Bytes × Option Bytes) × Option (Bytes × Bytes)

abbrev pub from_result : Result → Option Bytes
from_result (string s) = some s
from_result _ = none

abbrev pub to_result : Option Bytes → Result
to_result (some s) = string s
to_result none = nil

abbrev pub from_error : Option RspError → Option (Bytes × Bytes)
from_error (some e) = some (e.code, e.message)
from_error none = none

abbrev pub to_error : Option (Bytes × Bytes) → Option RspError
to_error (some (code, message)) = some (record { code = code; message = message })
to_error none = none

abbrev pub from_rsp : Rsp → RspData
from_rsp r = ((r.id, from_result r.result), from_error r.error)

abbrev pub to_rsp : RspData → Rsp
to_rsp ((id, result), error) = record { result = to_result result; error = to_error error; id = id }

unfoldable pub rsp_data : Coder RspData
rsp_data = pair (pair bytes (option bytes)) (option (pair bytes bytes))

abbrev pub reqs : Codec (Req Bytes)
reqs = codec req_data from_req to_req

abbrev pub rsps : Codec Rsp
rsps = codec rsp_data from_rsp to_rsp

-- The one JSON object is "{}".
abbrev pub object_of : Bytes → Option Bytes
object_of b = if beq b (codes "{}") then some b else none

abbrev pub json : RpcJson Bytes
json = record {
  marshal_req = reqs.marshal;
  unmarshal_req = reqs.unmarshal;
  marshal_rsp = rsps.marshal;
  unmarshal_rsp = rsps.unmarshal;
  to_map = object_of;
}

pub req_read :
    (req : Req Bytes) → reqs.unmarshal (to_bytes reqs req) ≡ (to_req (from_req req), none)
unfolding codec codec-CodecLaws
req_read req = CodecLaws.unmarshal-image (codec-CodecLaws req_data from_req to_req (λ r. refl)) req

pub rsp_read : (rsp : Rsp) → rsps.unmarshal (to_bytes rsps rsp) ≡ (to_rsp (from_rsp rsp), none)
unfolding codec codec-CodecLaws
rsp_read rsp = CodecLaws.unmarshal-image (codec-CodecLaws rsp_data from_rsp to_rsp (λ r. refl)) rsp
