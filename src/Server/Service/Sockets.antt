-- ===== src/Server/Service/Sockets.antt =====
-- The connections that the slots of MemOpRcptServer.cpp accept.
use mathlib.Core.List.{Perm, perm_append_comm}
use mathlib.Core.List.Perm
use aleakd.Base.{
  ℕ, ◌≡◌, refl, subst, Option, none, some, List, [], ◌∷◌, ◌++◌, append_assoc, append-nil,
}
use aleakd.Server.Service.{
  SocketState, SocketEvent, accept, close_client, on_new_connection, on_socket_disconnected,
  run_sockets,
}

-- Every event of a connection comes with a connection that is pending.
abbrev pub ArePending : List SocketEvent → Type 0
ArePending [] = Unit {0}
ArePending (SocketEvent.connected none ∷ es) = ⊥
ArePending (SocketEvent.connected (some k) ∷ es) = ArePending es
ArePending (SocketEvent.disconnected ∷ es) = ArePending es

-- The connections that came.
abbrev pub came : List SocketEvent → List ℕ
came [] = []
came (SocketEvent.connected none ∷ es) = came es
came (SocketEvent.connected (some k) ∷ es) = k ∷ came es
came (SocketEvent.disconnected ∷ es) = came es

abbrev pub client_of : Option ℕ → List ℕ
client_of none = []
client_of (some c) = c ∷ []

-- The connections that are accounted for: those that were closed, and the client.
abbrev pub held : SocketState → List ℕ
held t = t.closed ++ client_of t.tcp_client_socket

swap_ends : (xs : List ℕ) (a b : ℕ) → Perm ((xs ++ a ∷ []) ++ b ∷ []) ((xs ++ b ∷ []) ++ a ∷ [])
swap_ends xs a b =
    rw (append_assoc xs (a ∷ []) (b ∷ []), append_assoc xs (b ∷ []) (a ∷ []))
      (Perm.append_left xs (perm_append_comm (a ∷ []) (b ∷ [])))

accept-held :
    (k : ℕ) (client : Option ℕ) (closed : List ℕ)
    → Perm (held (accept k client closed)) ((closed ++ client_of client) ++ k ∷ [])
unfolding accept
accept-held k none closed = rw (append-nil closed) (Perm.refl (closed ++ k ∷ []))
accept-held k (some c) closed = swap_ends closed k c

close_client-held :
    (client : Option ℕ) (closed : List ℕ)
    → held (close_client client closed) ≡ closed ++ client_of client
unfolding close_client
close_client-held none closed = refl
close_client-held (some c) closed = append-nil (closed ++ c ∷ [])

-- Whatever connections come and go: each is either closed or the one client, and none is closed twice
-- or lost.
pub run_sockets-held :
    (es : List SocketEvent) (t : SocketState)
    → ArePending es
    → (u : SocketState) × (run_sockets es t ≡ some u) × Perm (held u) (held t ++ came es)
unfolding run_sockets on_new_connection on_socket_disconnected
run_sockets-held [] t p = (t, refl, rw (append-nil (held t)) (Perm.refl (held t)))
run_sockets-held (SocketEvent.connected none ∷ es) t p = absurd p
run_sockets-held (SocketEvent.connected (some k) ∷ es) t p =
    let (u, ran, all) = run_sockets-held es (accept k t.tcp_client_socket t.closed) p in
    (
      u,
      ran,
      Perm.trans all (
          subst (Perm (held (accept k t.tcp_client_socket t.closed) ++ came es))
            (append_assoc (held t) (k ∷ []) (came es))
            (Perm.append_right (came es) (accept-held k t.tcp_client_socket t.closed))),
    )
run_sockets-held (SocketEvent.disconnected ∷ es) t p =
    let (u, ran, all) = run_sockets-held es (close_client t.tcp_client_socket t.closed) p in
    (
      u,
      ran,
      subst (λ xs. Perm (held u) (xs ++ came es)) (close_client-held t.tcp_client_socket t.closed)
          all,
    )
