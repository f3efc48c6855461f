-- ===== src/Config/Closing.antt =====
-- clients/config_client: the clients of the listening tasks, and the closing of a configuration client.
use mathlib.Core.List.{append_cancel_left, append_cancel_right}
use nacos_sdk_go.Common.{
  ℕ, ◌≡◌, ◌≢◌, sym, Bool, true, false, List, ◌∷◌, ◌++◌, Option, none, some, arith, Bytes, Dict,
  lookup, insert, delete, lookup-insert, lookup-delete, codes, bytes_eq, bytes_beq, bytes_beq_iff,
  if◌then◌else◌, Bool-cases, inl, inr,
}
use nacos_sdk_go.Rpc.{RpcClient, shut_down, status_beq, initialized, start, Connection, ServerInfo}

abbrev pub rpc_client_name : Bytes → Bytes → Bytes
rpc_client_name task_id uid = codes "config-" ++ (task_id ++ (codes "-" ++ uid))

-- The map of clients by name, `clientMap`, with what the configuration client keeps of its own;
-- `stopped` are the clients shut down so far.
pub record ConfigSession : Type 0 where
  pub uid : Bytes
  pub is_closed : Bool
  pub is_cancelled : Bool
  pub client_map : Dict Bytes RpcClient
  pub stopped : List RpcClient

same_task : (a b uid : Bytes) → rpc_client_name a uid ≡ rpc_client_name b uid → a ≡ b
same_task a b uid e =
    append_cancel_right a b (codes "-" ++ uid) (append_cancel_left (codes "config-") _ _ e)

other_name :
    (task_id uid : Bytes)
    → task_id ≢ codes "0"
    → bytes_beq (rpc_client_name (codes "0") uid) (rpc_client_name task_id uid) ≡ false
other_name task_id uid other =
    elim (Bool-cases (bytes_beq (rpc_client_name (codes "0") uid) (rpc_client_name task_id uid))) [
      | inl e ↦ absurd (other (sym (same_task (codes "0") task_id uid ((bytes_beq_iff _ _).0 e))))
      | inr e ↦ e
    ]

delete_first :
    (first name : Bytes) (c : RpcClient) (m : Dict Bytes RpcClient)
    → bytes_beq first name ≡ false
    → lookup name (delete first (insert first c m)) ≡ lookup name m
delete_first first name c m d =
    ground (arith, lookup-delete first name (insert first c m), lookup-insert first name c m, d)

-- A new RPC client, and what `connectToServer` gives in the tries of its `Start`.
module _ (new_client : RpcClient) (connect : ℕ → ServerInfo → Option Connection) where
  -- `createRpcClient`, less its labels and handlers.
  unfoldable pub create_rpc_client : ConfigSession → Bytes → ConfigSession × RpcClient
  create_rpc_client s task_id =
      let name = rpc_client_name task_id s.uid in
      let found : RpcClient = elim (lookup name s.client_map) [ none ↦ new_client | some c ↦ c ] in
      let c =
        if status_beq found.rpc_client_status initialized then start connect found else found in
      (record s { client_map = insert name c s.client_map }, c)

  -- `CloseClient`; `getRpcClient` is the client of the task 0.
  unfoldable pub close_client : ConfigSession → ConfigSession
  unfolding create_rpc_client
  close_client s =
      if s.is_closed
      then s
      else let (s', c) = create_rpc_client s (codes "0") in
        record s' {
          is_closed = true;
          is_cancelled = true;
          client_map = delete (rpc_client_name (codes "0") s.uid) s'.client_map;
          stopped = (shut_down c) ∷ s.stopped;
        }

  -- Closing a configuration client leaves the clients of all tasks but the first as they are: one that
  -- runs goes on running with its connection.
  close_leaves_tasks :
      (s : ConfigSession) (task_id : Bytes)
      → task_id ≢ codes "0"
      → lookup (rpc_client_name task_id s.uid) (close_client s).client_map
        ≡ lookup (rpc_client_name task_id s.uid) s.client_map
  unfolding close_client create_rpc_client
  close_leaves_tasks s task_id other =
      let first = rpc_client_name (codes "0") s.uid in
      let name = rpc_client_name task_id s.uid in
      let (s', c) = create_rpc_client s (codes "0") in
      elim (Bool-cases s.is_closed) [
        | inl e ↦ ground (arith, e)
        | inr e ↦
            ground
              (arith, e, delete_first first name c s.client_map (other_name task_id s.uid other))
      ]
