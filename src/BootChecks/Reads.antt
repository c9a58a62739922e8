-- ===== src/BootChecks/Reads.antt =====
-- What the reads of lib/bootChecks.js show when they succeed.
use wax_rng_oracle.Prelude.{
  ℕ, ◌≤◌, String, ◌≡◌, refl, ap, sym, Bool, true, false, not, Option, none, some, arith, leb,
  text_eq, text_eq_iff,
}
use wax_rng_oracle.BootChecks.Rows.{
  Row, unreachable, no_row, row, ConfigRow, KeyRow, OracleRow, Rpc, PublicKey, Code, Fetched, got,
  require, is_number, key_values, key_of_row, key_of_version, key_of_config,
  fetch_active_public_key, index_value, index_of_row, fetch_oracle_index,
}

-- The node shows `k` as the active key: its version is the active one, and its row is there, is not
-- retired and holds both texts.
pub record IsActive (rpc : Rpc) (key : String) (k : PublicKey) : Type 0 where
  pub config : ConfigRow
  pub config_read : rpc.config_row key ≡ row config
  pub name : config.name ≡ key
  pub active : config.value ≡ some k.ver
  pub positive : 1 ≤ k.ver
  pub entry : KeyRow
  pub entry_read : rpc.key_row k.ver ≡ row entry
  pub ver : entry.ver ≡ some k.ver
  pub not_retired : entry.retired ≡ false
  pub modulus : entry.modulus ≡ some k.modulus
  pub exponent : entry.exponent ≡ some k.exponent

-- The node shows the member `owner` as the oracle with the index `i`.
pub record IsRegistered (rpc : Rpc) (owner : String) (i : ℕ) : Type 0 where
  pub entry : OracleRow
  pub entry_read : rpc.oracle_row owner ≡ row entry
  pub oracle : entry.oracle ≡ owner
  pub index : entry.oracle_index ≡ some i
  pub positive : 1 ≤ i

require-got {ℓ} :
    {A : Type ℓ} (b : Bool) (c : Code) (f : Fetched A) (a : A)
    → require b c f ≡ got a
    → (b ≡ true) × (f ≡ got a)
require-got true c f a e = (refl, e)
require-got false c f a e = absurd (cc)

got_inj {ℓ} : {A : Type ℓ} {a b : A} → ◌≡◌ {A = Fetched A} (got a) (got b) → a ≡ b
got_inj e = cc

number_of : (n : ℕ) (o : Option ℕ) → is_number n o ≡ true → o ≡ some n
number_of n none e = absurd (cc)
number_of n (some m) e = ap some (ground (arith, e))

-- A key that `key_values` makes, and the texts that it is made of.
values_got :
    (ver : ℕ) (n e : Option String) (k : PublicKey)
    → key_values ver n e ≡ got k
    → (k.ver ≡ ver) × (n ≡ some k.modulus) × (e ≡ some k.exponent)
values_got ver none e k h = absurd (cc)
values_got ver (some n) none k h = absurd (cc)
values_got ver (some n) (some e) k h =
    let p = got_inj h in
    (
      sym (ap (λ (x : PublicKey). x.ver) p),
      ap (λ (x : PublicKey). some x.modulus) p,
      ap (λ (x : PublicKey). some x.exponent) p,
    )

row_got :
    (rpc : Rpc) (key : String) (c : ConfigRow) (ver : ℕ) (k : PublicKey) (r : Row KeyRow)
    → rpc.config_row key ≡ row c
    → c.name ≡ key
    → c.value ≡ some ver
    → 1 ≤ ver
    → rpc.key_row ver ≡ r
    → key_of_row ver r ≡ got k
    → IsActive rpc key k
row_got rpc key c ver k unreachable hc hn hv h1 hr e = absurd (cc)
row_got rpc key c ver k no_row hc hn hv h1 hr e = absurd (cc)
row_got rpc key c ver k (row r) hc hn hv h1 hr e =
    let (same, e') = require-got (is_number ver r.ver) _ _ k e in
    let (live, e'') = require-got (not r.retired) _ _ k e' in
    let (v, n, x) = values_got ver r.modulus r.exponent k e'' in
    record {
      config = c;
      config_read = hc;
      name = hn;
      active = rw v hv;
      positive = rw v h1;
      entry = r;
      entry_read = rw v hr;
      ver = rw v (number_of ver r.ver same);
      not_retired = ground (arith, live);
      modulus = n;
      exponent = x;
    }

version_got :
    (rpc : Rpc) (key : String) (c : ConfigRow) (v : Option ℕ) (k : PublicKey)
    → rpc.config_row key ≡ row c
    → c.name ≡ key
    → c.value ≡ v
    → key_of_version rpc v ≡ got k
    → IsActive rpc key k
version_got rpc key c none k hc hn hv e = absurd (cc)
version_got rpc key c (some ver) k hc hn hv e =
    let (h1, e') = require-got (leb 1 ver) _ _ k e in
    row_got rpc key c ver k (rpc.key_row ver) hc hn hv (ground (arith, h1)) refl e'

config_got :
    (rpc : Rpc) (key : String) (r : Row ConfigRow) (k : PublicKey)
    → rpc.config_row key ≡ r
    → key_of_config rpc key r ≡ got k
    → IsActive rpc key k
config_got rpc key unreachable k hc e = absurd (cc)
config_got rpc key no_row k hc e = absurd (cc)
config_got rpc key (row c) k hc e =
    let (same, e') = require-got (text_eq c.name key) _ _ k e in
    version_got rpc key c c.value k hc (ground (arith, same, text_eq_iff c.name key)) refl e'

pub fetch_active_public_key-IsActive :
    (rpc : Rpc) (key : String) (k : PublicKey)
    → fetch_active_public_key rpc key ≡ got k
    → IsActive rpc key k
unfolding fetch_active_public_key
fetch_active_public_key-IsActive rpc key k e = config_got rpc key (rpc.config_row key) k refl e

index_got :
    (rpc : Rpc) (owner : String) (r : OracleRow) (v : Option ℕ) (i : ℕ)
    → rpc.oracle_row owner ≡ row r
    → r.oracle ≡ owner
    → r.oracle_index ≡ v
    → index_value v ≡ got i
    → IsRegistered rpc owner i
index_got rpc owner r none i hr ho hv e = absurd (cc)
index_got rpc owner r (some j) i hr ho hv e =
    let (h1, e') = require-got (leb 1 j) _ _ i e in
    let same : j ≡ i = got_inj e' in
    record {
      entry = r;
      entry_read = hr;
      oracle = ho;
      index = rw (sym same) hv;
      positive = ground (arith, h1, same);
    }

oracle_got :
    (rpc : Rpc) (owner : String) (r : Row OracleRow) (i : ℕ)
    → rpc.oracle_row owner ≡ r
    → index_of_row owner r ≡ got i
    → IsRegistered rpc owner i
oracle_got rpc owner unreachable i hr e = absurd (cc)
oracle_got rpc owner no_row i hr e = absurd (cc)
oracle_got rpc owner (row r) i hr e =
    let (same, e') = require-got (text_eq r.oracle owner) _ _ i e in
    index_got rpc owner r r.oracle_index i hr (ground (arith, same, text_eq_iff r.oracle owner))
      refl e'

pub fetch_oracle_index-IsRegistered :
    (rpc : Rpc) (owner : String) (i : ℕ)
    → fetch_oracle_index rpc owner ≡ got i
    → IsRegistered rpc owner i
unfolding fetch_oracle_index
fetch_oracle_index-IsRegistered rpc owner i e = oracle_got rpc owner (rpc.oracle_row owner) i refl e
