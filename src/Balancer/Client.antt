-- ===== src/Balancer/Client.antt =====
-- lb/client/client.go: the client of the load balancer, calling the handlers of Balancer/Rpc. Its
-- connection holds, and no deadline passes.
use gofordevopsclass.Prelude.{String, Bool, List, [], ◌∷◌, Option, none, some}
use gofordevopsclass.Prelude.Int.{ℤ}
use gofordevopsclass.Balancer.P2c.{PoolHealth, Ran, ran, panicked}
use gofordevopsclass.Balancer.Rpc.{
  Server, RpcError, Built, built, PoolType, StatusCheckReq, AddPoolReq, BackendReq,
}
use gofordevopsclass.Balancer.Rpc

-- StatusCheck, the only HealthCheck of the package.
pub record StatusCheck : Type 0 where
  pub url_path : String
  pub healthy_values : List String

-- toPB of a StatusCheck, and of HealthChecks: the checks of a request. Its interval is left out,
-- as the timer of the pools is.
unfoldable pub status_to_pb : StatusCheck → StatusCheckReq
status_to_pb s = record { url_path = s.url_path; healthy_values = s.healthy_values }

unfoldable pub to_pb : List StatusCheck → List (Option StatusCheckReq)
unfolding status_to_pb
to_pb [] = []
to_pb (c ∷ cs) = some (status_to_pb c) ∷ to_pb cs

-- A Backend: an IPBackend, by the text of its ip, or a value of another type.
pub data Backend : Type 0 where
  ip_backend : String → ℤ → String → Backend
  other_backend : Backend

-- What a method returns: no error, the error of the call, or that of a type that it does not know.
-- A handler that panics takes the call down with it.
pub data Result {ℓ} (A : Type ℓ) : Type ℓ where
  returned : A → Result A
  rpc_failed : RpcError → Result A
  unknown_type server_down : Result A

abbrev pub result_of : Option RpcError → Result (Unit {0})
result_of none = returned tt
result_of (some e) = rpc_failed e

abbrev pub after_call : Server → Ran (Option RpcError × Server) → Result (Unit {0}) × Server
after_call s panicked = (server_down, s)
after_call s (ran (e, t)) = (result_of e, t)

module _ (get : String → String → Option String) (parse_ip : String → Option String)
    (url_of : String → ℤ → String) where
  unfoldable pub add_pool :
      String → PoolType → List StatusCheck → Server → Result (Unit {0}) × Server
  unfolding to_pb
  add_pool p t hcs s = after_call s (
      Rpc.add_pool get parse_ip url_of
        (record { pattern = p; pool_type = t; health_checks = some (to_pb hcs) }) s)

  unfoldable pub remove_pool : String → Server → Result (Unit {0}) × Server
  remove_pool p s = after_call s (Rpc.remove_pool get parse_ip url_of p s)

  abbrev pub ip_req : String → ℤ → String → Option BackendReq
  ip_req ip port path = some (record { ip = ip; port = port; url_path = path })

  -- AddBackend, and addIPBackend behind it; and so for RemoveBackend.
  unfoldable pub add_backend : Bool → String → Backend → Server → Result (Unit {0}) × Server
  add_backend ctx_err p other_backend s = (unknown_type, s)
  add_backend ctx_err p (ip_backend ip port path) s =
      let (e, t) = Rpc.add_backend get parse_ip url_of ctx_err p (ip_req ip port path) s in
      (result_of e, t)

  unfoldable pub remove_backend : String → Backend → Server → Result (Unit {0}) × Server
  remove_backend p other_backend s = (unknown_type, s)
  remove_backend p (ip_backend ip port path) s =
      let (e, t) = Rpc.remove_backend get parse_ip url_of p (ip_req ip port path) s in
      (result_of e, t)

  abbrev pub health_result : Built PoolHealth → Result PoolHealth
  health_result (built h) = returned h
  health_result (Built.refused e) = rpc_failed e

  unfoldable pub pool_health : String → Bool → Bool → Server → Result PoolHealth
  pool_health p want_healthy want_sick s =
      health_result (Rpc.get_health get parse_ip url_of p want_healthy want_sick s)
