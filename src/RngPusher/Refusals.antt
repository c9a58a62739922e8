-- ===== src/RngPusher/Refusals.antt =====
-- What the methods of lib/rngPusher.js throw on.
use wax_rng_oracle.Prelude.{String, ◌≡◌, false, List, arith}
use wax_rng_oracle.RngPusher.{
  RpcJson, no_error, no_detail, detail, rpc, type_error, other, Answer, accepted, failed, silent,
  threw, expected, refuse,
}

-- An `RpcError` that comes through has a message, and the message holds none of the phrases.
abbrev pub Unexpected : List String → RpcJson → Type 0
Unexpected phrases no_error = ⊥
Unexpected phrases no_detail = ⊥
Unexpected phrases (detail message) = expected phrases message ≡ false

pub refuse-rpc :
    (phrases : List String) (a : Answer) (j : RpcJson)
    → refuse phrases a ≡ threw (rpc j)
    → Unexpected phrases j
refuse-rpc phrases (accepted id) j e = cc
refuse-rpc phrases (failed (rpc no_error)) j e = cc
refuse-rpc phrases (failed (rpc no_detail)) j e = cc
refuse-rpc phrases (failed (rpc (detail m))) no_error e = ground arith
refuse-rpc phrases (failed (rpc (detail m))) no_detail e = ground arith
refuse-rpc phrases (failed (rpc (detail m))) (detail m') e = ground arith
refuse-rpc phrases (failed type_error) j e = cc
refuse-rpc phrases (failed (other x)) j e = cc

pub refuse-ne-silent : (phrases : List String) (a : Answer) → refuse phrases a ≡ silent → ⊥
refuse-ne-silent phrases (accepted id) e = cc
refuse-ne-silent phrases (failed (rpc no_error)) e = cc
refuse-ne-silent phrases (failed (rpc no_detail)) e = cc
refuse-ne-silent phrases (failed (rpc (detail m))) e = ground arith
refuse-ne-silent phrases (failed type_error) e = cc
refuse-ne-silent phrases (failed (other x)) e = cc
