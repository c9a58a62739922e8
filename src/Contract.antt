-- ===== src/Contract.antt =====
-- lib/config/eos.js: the actions of the `orng.wax` contract that the member can push, and the
-- transaction that `pushAction` builds of each. Signing and sending a transaction is eosjs: a
-- parameter of the code that uses this.
use wax_rng_oracle.Prelude.{ℕ, String, Bool, List}

-- `config.get('eos.orng')`
pub record OrngConfig : Type 0 where
  pub contract_name : String
  pub node_owner : String
  pub auth : String
  pub max_cpu : ℕ

-- A method of `OrngContract` with its arguments.
pub data Action : Type 0 where
  submitpart : (oracle : String) (id ver : ℕ) (sig_i : String) → Action
  setrand : (oracle : String) (id ver : ℕ) (sig : String) → Action
  markfailed : (oracle : String) (id ver : ℕ) (sig error_message : String) → Action
  retrydeliver : (oracle : String) (request_id : ℕ) → Action
  verifysig2 : (sig_val signature exponent modulus : String) → Action
  requestrand : (assoc_id signing_value : ℕ) (caller : String) → Action
  dapperror : (dapp : String) (job_id : ℕ) (message : String) → Action
  unstake : (dapp quantity : String) → Action
  claim : (oracle : String) → Action
  setpubkey : (version : ℕ) (exponent modulus : String) → Action
  setoracles : (oracles : List String) → Action
  resetsuspen : (oracle : String) → Action
  configv2 : (fee_per_call strike_max k_calls_per_wax treas_hardfloor : ℕ) → Action
  cleanup : (oracle : String) (batch_size : ℕ) → Action
  killjobs : (job_ids : List ℕ) → Action
  pause : (paused : Bool) → Action
  pauserequest : (paused : Bool) → Action
  setconfig : (config : String) (value : ℕ) → Action
  seterrorsize : (dapp : String) (queue_size : ℕ) → Action
  setbwpayer : (payee payer : String) → Action
  acceptbwpay : (payee payer : String) (accepted : Bool) → Action
  setmaxjobs : (dapp : String) (max_jobs : ℕ) → Action
  ban : (dapp : String) → Action
  unban : (dapp : String) → Action
  cleansigvals : (scope rows_num : ℕ) → Action
  v1rrcompat : (signing_value : ℕ) → Action
  version : Action

-- What `pushAction` hands to `transact`, besides the action's data, which is the action itself.
pub record Transaction : Type 0 where
  pub max_cpu_usage_ms : ℕ
  pub account : String
  pub name : String
  pub actor : String
  pub permission : String
  pub action : Action

module _ (c : OrngConfig) where
  -- `pushAction(account, action, actor, permission, data, maxCpu)`
  unfoldable pub push_action : String → String → String → Action → ℕ → Transaction
  push_action name actor permission action max_cpu = record {
    max_cpu_usage_ms = max_cpu;
    account = c.contract_name;
    name = name;
    actor = actor;
    permission = permission;
    action = action;
  }

  -- The methods of `OrngContract`. `dapperror` passes no limit, which counts as 0.
  unfoldable pub transaction : Action → Transaction
  unfolding push_action
  transaction (submitpart o i v s) =
      push_action "submitpart" o c.auth (submitpart o i v s) c.max_cpu
  transaction (setrand o i v s) = push_action "setrand" o c.auth (setrand o i v s) c.max_cpu
  transaction (markfailed o i v s e) =
      push_action "markfailed" o c.auth (markfailed o i v s e) c.max_cpu
  transaction (retrydeliver o r) = push_action "retrydeliver" o c.auth (retrydeliver o r) c.max_cpu
  transaction (verifysig2 v s e m) =
      push_action "verifysig2" c.node_owner c.auth (verifysig2 v s e m) c.max_cpu
  transaction (requestrand a s o) =
      push_action "requestrand" o "active" (requestrand a s o) c.max_cpu
  transaction (dapperror d j m) = push_action "dapperror" d "active@ornglog" (dapperror d j m) 0
  transaction (unstake d q) = push_action "unstake" d "active" (unstake d q) c.max_cpu
  transaction (claim o) = push_action "claim" o "active" (claim o) c.max_cpu
  transaction (setpubkey v e m) =
      push_action "setpubkey" c.node_owner c.auth (setpubkey v e m) c.max_cpu
  transaction (setoracles os) =
      push_action "setoracles" c.node_owner c.auth (setoracles os) c.max_cpu
  transaction (resetsuspen o) =
      push_action "resetsuspen" c.node_owner c.auth (resetsuspen o) c.max_cpu
  transaction (configv2 f s k t) =
      push_action "configv2" c.node_owner c.auth (configv2 f s k t) c.max_cpu
  transaction (cleanup o b) = push_action "cleanup" o c.auth (cleanup o b) c.max_cpu
  transaction (killjobs js) = push_action "killjobs" "oracle.wax" "active" (killjobs js) c.max_cpu
  transaction (pause p) = push_action "pause" c.node_owner c.auth (pause p) c.max_cpu
  transaction (pauserequest p) =
      push_action "pauserequest" c.node_owner c.auth (pauserequest p) c.max_cpu
  transaction (setconfig n v) =
      push_action "setconfig" c.node_owner c.auth (setconfig n v) c.max_cpu
  transaction (seterrorsize d q) =
      push_action "seterrorsize" d "active" (seterrorsize d q) c.max_cpu
  transaction (setbwpayer e r) = push_action "setbwpayer" e "active" (setbwpayer e r) c.max_cpu
  transaction (acceptbwpay e r a) =
      push_action "acceptbwpay" r "active" (acceptbwpay e r a) c.max_cpu
  transaction (setmaxjobs d m) =
      push_action "setmaxjobs" c.node_owner c.auth (setmaxjobs d m) c.max_cpu
  transaction (ban d) = push_action "ban" c.node_owner c.auth (ban d) c.max_cpu
  transaction (unban d) = push_action "unban" c.node_owner c.auth (unban d) c.max_cpu
  transaction (cleansigvals s r) =
      push_action "cleansigvals" "oracle.wax" "active" (cleansigvals s r) c.max_cpu
  transaction (v1rrcompat s) =
      push_action "v1rrcompat" "oraclev1.wax" "active" (v1rrcompat s) c.max_cpu
  transaction version = push_action "version" c.node_owner c.auth version c.max_cpu
