-- ===== src/Aby/Executor.antt =====
-- The constructor of an executor in src/aby/aby_executor.cpp: which roles, protocols and algorithms it
-- knows. The parties are connections of ABY.
use Prim.Native.String.{String}
use text.Mathlib.Text.{◌==◌ as str_eq}
use he_transformer_research.Base.{
  ℕ, List, ◌==◌, if◌then◌else◌, Result, ok, err, check_failed, require, tabulate, ◌+◌, ◌>>=◌, ◌>>◌,
}
use he_transformer_research.Aby.{Role, server, client}

-- `S_YAO` and `S_BOOL`
pub data Sharing : Type 0 where
  s_yao s_bool : Sharing

unfoldable pub role_of : String → Result Role
role_of role =
    if str_eq role "server"
    then ok server
    else (if str_eq role "client" then ok client else err check_failed)

unfoldable pub protocol_of : String → Result Sharing
protocol_of mpc_protocol =
    if str_eq mpc_protocol "yao"
    then ok s_yao
    else (if str_eq mpc_protocol "gmw" then ok s_bool else err check_failed)

pub record AbyExecutor : Type 0 where
  pub role : Role
  pub aby_gc_protocol : Sharing
  pub num_parties : ℕ
  pub aby_bitlen : ℕ
  -- The ports of the parties.
  pub ports : List ℕ

-- `to_lower` is nGraph's.
unfoldable pub new_executor :
    (String → String) → String → String → ℕ → ℕ → ℕ → ℕ → String → Result AbyExecutor
unfolding role_of protocol_of
new_executor to_lower role mpc_protocol port security_level bit_length num_parties mg_algo_str = do
  known_role ← role_of (to_lower role)
  protocol ← protocol_of (to_lower mpc_protocol)
  require (str_eq mg_algo_str "MT_OT") check_failed
  require (security_level == 128) check_failed
  ok (record {
    role = known_role;
    aby_gc_protocol = protocol;
    num_parties = num_parties;
    aby_bitlen = bit_length;
    ports = tabulate num_parties 0 (λ idx. port + idx);
  })
