-- ===== src/Rpc/Listeners.antt =====
-- common/remote/rpc/rpc_client.go: the listeners of a connection, known by number.
use nacos_sdk_go.Common.{ℕ, ◌≡◌, refl, ap, List, [], ◌∷◌, ◌++◌, map}
use nacos_sdk_go.Rpc.{ConnectionStatus, connected, disconnected}

pub data ListenerCall : Type 0 where
  on_connected on_dis_connect : ℕ → ListenerCall

unfoldable pub register_connection_listener : List ℕ → ℕ → List ℕ
register_connection_listener listeners listener = listeners ++ (listener ∷ [])

abbrev pub listener_call : ConnectionStatus → ℕ → ListenerCall
listener_call connected listener = on_connected listener
listener_call disconnected listener = on_dis_connect listener

-- `notifyConnectionEvent`: the calls, in their order.
unfoldable pub notify_connection_event : List ℕ → ConnectionStatus → List ListenerCall
notify_connection_event listeners event = map (listener_call event) listeners

-- A new listener is called last.
notify_after_register :
    (listeners : List ℕ) (listener : ℕ) (event : ConnectionStatus)
    → notify_connection_event (register_connection_listener listeners listener) event
      ≡ notify_connection_event listeners event ++ (listener_call event listener ∷ [])
unfolding register_connection_listener notify_connection_event
notify_after_register [] listener event = refl
notify_after_register (l ∷ listeners) listener event =
    ap (λ calls. listener_call event l ∷ calls) (notify_after_register listeners listener event)
