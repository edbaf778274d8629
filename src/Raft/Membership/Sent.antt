-- ===== src/Raft/Membership/Sent.antt =====
-- What the leader sends to a server that is asked to join, and what that server makes of it
-- (src/handle_join_leave.cxx, `invite_srv_to_join_cluster` and `handle_join_cluster_req`).
use nu_raft.Common.{
  ℕ, ◌-◌, ◌≡◌, refl, ap, ◌∙◌, true, not, ◌&&◌, if_elim, some, [], ◌∷◌, ok, append-nil,
}
use nu_raft.Buffer.Put.{filled_lem, put_raw-Writes}
use nu_raft.Serializer.{little, open_buffer}
use nu_raft.Serializer.Gets.{open_buffer-At}
use nu_raft.Config.{ClusterConfig, get_server}
use nu_raft.Config.Format.{encode_cluster}
use nu_raft.Config.RoundTrip.{IsCluster, deserialize_cluster_config-Reads}
use nu_raft.Raft.Types.{conf, LogEntry, ReqMsg, RespMsg, SrvState, no_server, join_cluster_request}
use nu_raft.Raft.LogStore.{LogStore}
use nu_raft.Raft.Server.{Server, Peer, emit, send, save_config, update_target_priority}
use nu_raft.Raft.Follower.{is_some}
use nu_raft.Raft.Leader.{new_req}
use nu_raft.Raft.Leader.Become.{config_of}
use nu_raft.Raft.Reconfigure.{reconfigure, set_config}
use nu_raft.Raft.Membership.{invite}
use nu_raft.Raft.Membership.Join.{follow_new_leader, take_config, handle_join_cluster_req}
use nu_raft.Raft.Membership.Revote.{join-step, state-handle_join_cluster_req}

pub config_of-encode_cluster :
    (c : ClusterConfig) → IsCluster c → config_of (encode_cluster c) ≡ ok c
unfolding config_of
config_of-encode_cluster c v =
    let (b, e, a) =
      filled_lem (λ i. 0) _ (encode_cluster c) (put_raw-Writes (encode_cluster c)) v.small in
    let opened = open_buffer-At little b (encode_cluster c) a in
    let (s, r, at, same) =
      deserialize_cluster_config-Reads c v (open_buffer little b) [] [] opened.1
        (rw append-nil opened.0) in
    rw (config_of, e, r) refl

config-reconfigure :
    {S : Type 0}
    → (slot : ℕ) (new : ClusterConfig) (s : Server S) → (reconfigure slot new s).config ≡ new
unfolding reconfigure set_config update_target_priority emit
config-reconfigure {S = S} slot new s =
    if_elim (λ (t : Server S). (update_target_priority t).config ≡ new)
      (not (is_some (get_server s.config s.id)) && is_some (get_server new s.id)) refl refl

config-take_config :
    {S : Type 0}
    → (slot : ℕ) (new : ClusterConfig) (s : Server S) → (take_config slot new s).config ≡ new
unfolding take_config
config-take_config slot new s = config-reconfigure slot new (emit (save_config new) s)

module _ (L : LogStore) where
  open L use {Store, next_slot}

  join-accepts :
      (req : ReqMsg) (e : LogEntry) (new : ClusterConfig) (s : Server Store)
      → req.log_entries ≡ e ∷ []
      → e.value_type ≡ conf
      → config_of e.buff ≡ ok new
      → (resp : RespMsg) × ((handle_join_cluster_req L req s).1 ≡ some resp)
        × (resp.accepted ≡ true)
  unfolding handle_join_cluster_req
  join-accepts req e new s there kind reads =
      rw (handle_join_cluster_req, there, kind, reads) (_, refl, refl)

  abbrev invitation : Peer → Server Store → ReqMsg
  unfolding encode_cluster
  invitation j s =
      new_req s.state.term join_cluster_request s.id j.id 0 (next_slot s.log_store - 1)
        s.quick_commit_index
        (record { term = s.state.term; value_type = conf; buff = encode_cluster s.config } ∷ [])

  -- A leader whose configuration fits its format asks a server to join. That server takes over the
  -- leader's term and its configuration, has no vote in that term, and accepts.
  pub invite-handle_join_cluster_req :
      (j : Peer) (s t : Server Store)
      → IsCluster s.config
      → (req : ReqMsg) × ((invite L j s).effects ≡ send req ∷ s.effects)
        × ((handle_join_cluster_req L req t).0.state.term ≡ s.state.term)
        × ((handle_join_cluster_req L req t).0.state.voted_for ≡ no_server)
        × ((handle_join_cluster_req L req t).0.config ≡ s.config)
        × ((resp : RespMsg) × ((handle_join_cluster_req L req t).1 ≡ some resp)
            × (resp.accepted ≡ true))
  unfolding invite emit
  invite-handle_join_cluster_req j s t v =
      let req = invitation j s in
      let e : LogEntry = record {
        term = s.state.term;
        value_type = conf;
        buff = encode_cluster s.config;
      } in
      let reads = config_of-encode_cluster s.config v in
      let same = state-handle_join_cluster_req L req e s.config t refl refl reads in
      (
        req,
        refl,
        ap (λ (x : SrvState). x.term) same,
        ap (λ (x : SrvState). x.voted_for) same,
        ap (λ (u : Server Store). u.config) (join-step L req e s.config t refl refl reads)
            ∙ config-take_config (next_slot t.log_store) s.config (follow_new_leader req t),
        join-accepts req e s.config t refl refl reads,
      )
