-- ===== src/Raft/Membership/Overlap.antt =====
-- Why configurations may follow one another (src/handle_join_leave.cxx): a change adds or removes
-- one server, so that majorities before and after it share a voter.
use nu_raft.Common.{
  ℕ, ◌+◌, ◌≡◌, ◌≤◌, refl, ap, ◌∙◌, arith, Bool, true, false, Option, none, some, List, [], ◌∷◌,
  ◌++◌, length, length-append, if_elim, ◌==◌, Bool-cases, Option-cases, inl, inr,
}
use nu_raft.Config.{ClusterConfig, SrvConfig}
use nu_raft.Raft.LogStore.{LogStore}
use nu_raft.Raft.Server.{Server}
use nu_raft.Raft.Quorum.{quorum_size}
use nu_raft.Raft.Quorum.Majority.{count_of, Overlap}
use nu_raft.Raft.Follower.{is_some}
use nu_raft.Raft.Leader.{Surroundings, find_peer, request_append_entries_to_all}
use nu_raft.Raft.Leader.Core.{CoreOf, core-request_append_entries_to_all}
use nu_raft.Raft.Membership.{without_server, latest_conf, next_conf, propose}
use nu_raft.Raft.Membership.Join.{admit_server, put_into_cluster}
use nu_raft.Raft.Membership.Leave.{mark_leaving, rm_srv_from_cluster}
use nu_raft.Raft.Membership.Voters.{
  voting, count-append, voting-snoc, close-Overlap, count-voting-without, length-voting-without,
}

-- What a leader does to the configuration: the server that has joined comes in, or one goes.
pub data Change : Type 0 where
  admit : Change
  dismiss : ℕ → Change

module _ (L : LogStore) where
  open L use {Store, next_slot}

  unfoldable pub change : Surroundings → Change → Server Store → Server Store
  unfolding put_into_cluster rm_srv_from_cluster
  change env admit s = put_into_cluster L env s
  change env (dismiss id) s = rm_srv_from_cluster L env id s

latest_of : {S : Type 0} → CoreOf S → ClusterConfig
latest_of c = elim c.uncommitted_config [ none ↦ c.config | some u ↦ u ]

module _ (L : LogStore) where
  open L use {Store, next_slot}

  latest-sent :
      (env : Surroundings) (s : Server Store)
      → latest_conf (request_append_entries_to_all L env s) ≡ latest_conf s
  unfolding latest_conf latest_of
  latest-sent env s = ap latest_of (core-request_append_entries_to_all L env s)

  latest-mark_leaving :
      (id target : ℕ) (s : Server Store) → latest_conf (mark_leaving L id target s) ≡ latest_conf s
  unfolding mark_leaving latest_conf
  latest-mark_leaving id target s =
      if_elim (λ (t : Server Store). latest_conf t ≡ latest_conf s) (is_some (find_peer id s.peers))
        refl refl

  latest-propose : (new : ClusterConfig) (s : Server Store) → latest_conf (propose L new s) ≡ new
  unfolding latest_conf propose
  latest-propose new s = refl

  servers-next_conf :
      (slot : ℕ) (cs : List SrvConfig) (s : Server Store) → (next_conf slot cs s).servers ≡ cs
  unfolding next_conf
  servers-next_conf slot cs s = refl

  -- What is proposed is the latest configuration also when the peers have been asked.
  step-put :
      (env : Surroundings) (s : Server Store) (c : SrvConfig)
      → s.conf_to_add ≡ some c
      → put_into_cluster L env s
        ≡ request_append_entries_to_all L env (
            propose L (next_conf (next_slot s.log_store) ((latest_conf s).servers ++ (c ∷ [])) s) s)
  unfolding put_into_cluster
  step-put env s c there = ap (λ (o : Option SrvConfig). admit_server L o env s) there

  pub servers-put :
      (env : Surroundings) (s : Server Store) (c : SrvConfig)
      → s.conf_to_add ≡ some c
      → (latest_conf (put_into_cluster L env s)).servers ≡ (latest_conf s).servers ++ (c ∷ [])
  servers-put env s c there =
      let slot = next_slot s.log_store in
      let new = next_conf slot ((latest_conf s).servers ++ (c ∷ [])) s in
      ap (λ (x : ClusterConfig). x.servers)
        (ap (λ (t : Server Store). latest_conf t) (step-put env s c there)
          ∙ latest-sent env (propose L new s)
          ∙ latest-propose new s)
      ∙ servers-next_conf slot ((latest_conf s).servers ++ (c ∷ [])) s

  step-removed :
      (env : Surroundings) (id : ℕ) (s : Server Store)
      → s.srv_to_leave ≡ none
      → rm_srv_from_cluster L env id s
        ≡ request_append_entries_to_all L env (
            mark_leaving L id (next_slot s.log_store) (
              propose L
                (next_conf (next_slot s.log_store) (without_server id (latest_conf s).servers) s)
                s))
  unfolding rm_srv_from_cluster
  step-removed env id s free = rw (rm_srv_from_cluster, free) refl

  pub servers-removed :
      (env : Surroundings) (id : ℕ) (s : Server Store)
      → s.srv_to_leave ≡ none
      → (latest_conf (rm_srv_from_cluster L env id s)).servers
        ≡ without_server id (latest_conf s).servers
  servers-removed env id s free =
      let slot = next_slot s.log_store in
      let left = without_server id (latest_conf s).servers in
      let new = next_conf slot left s in
      ap (λ (x : ClusterConfig). x.servers)
        (ap (λ (t : Server Store). latest_conf t) (step-removed env id s free)
          ∙ latest-sent env (mark_leaving L id slot (propose L new s))
          ∙ latest-mark_leaving id slot (propose L new s)
          ∙ latest-propose new s)
      ∙ servers-next_conf slot left s

  kept-put :
      (env : Surroundings) (s : Server Store)
      → s.conf_to_add ≡ none
      → latest_conf (put_into_cluster L env s) ≡ latest_conf s
  unfolding put_into_cluster latest_conf
  kept-put env s nobody = ap (λ (o : Option SrvConfig). latest_conf (admit_server L o env s)) nobody

  kept-removed :
      (env : Surroundings) (id i : ℕ) (s : Server Store)
      → s.srv_to_leave ≡ some i
      → rm_srv_from_cluster L env id s ≡ s
  unfolding rm_srv_from_cluster
  kept-removed env id i s taken = rw (rm_srv_from_cluster, taken) refl

  -- The same members, or one more or one less.
  data IsChanged (s : Server Store) (after : List SrvConfig) : Type 0 where
    as_before : after ≡ (latest_conf s).servers → IsChanged s after
    one_more : (c : SrvConfig) → after ≡ (latest_conf s).servers ++ (c ∷ []) → IsChanged s after
    one_less : (id : ℕ) → after ≡ without_server id (latest_conf s).servers → IsChanged s after

  change-IsChanged :
      (env : Surroundings) (ch : Change) (s : Server Store)
      → IsChanged s (latest_conf (change L env ch s)).servers
  unfolding change
  change-IsChanged env admit s = elim (Option-cases s.conf_to_add) [
    | inl nobody ↦ as_before (ap (λ (x : ClusterConfig). x.servers) (kept-put env s nobody))
    | inr (c, there) ↦ one_more c (servers-put env s c there)
  ]
  change-IsChanged env (dismiss id) s = elim (Option-cases s.srv_to_leave) [
    | inl free ↦ one_less id (servers-removed env id s free)
    | inr (i, taken) ↦
        as_before
          (ap (λ (t : Server Store). (latest_conf t).servers) (kept-removed env id i s taken))
  ]

  counted :
      (q : ℕ → Bool) (c : SrvConfig) (cs : List SrvConfig)
      → count_of q (voting (cs ++ (c ∷ []))) ≡ count_of q (voting cs) + count_of q (voting (c ∷ []))
  counted q c cs = ap (count_of q) (voting-snoc cs c) ∙ count-append q (voting cs) (voting (c ∷ []))

  lengths :
      (c : SrvConfig) (cs : List SrvConfig)
      → length (voting (cs ++ (c ∷ []))) ≡ length (voting cs) + length (voting (c ∷ []))
  lengths c cs = ap length (voting-snoc cs c) ∙ length-append (voting cs) (voting (c ∷ []))

  learned : (c : SrvConfig) → c.learner ≡ true → voting (c ∷ []) ≡ []
  learned c learns = ground (arith, learns)

  votes_too : (c : SrvConfig) → c.learner ≡ false → voting (c ∷ []) ≡ c.id ∷ []
  votes_too c votes = ground (arith, votes)

  count_of_one : (q : ℕ → Bool) (x : ℕ) → count_of q (x ∷ []) ≤ 1
  count_of_one q x = ground arith

  IsChanged-Overlap :
      (s : Server Store) (after : List SrvConfig) (p q : ℕ → Bool)
      → IsChanged s after
      → ((id : ℕ) → count_of (λ x. x == id) (voting (latest_conf s).servers) ≤ 1)
      → quorum_size 0 (length (voting (latest_conf s).servers)) + 1
        ≤ count_of p (voting (latest_conf s).servers)
      → quorum_size 0 (length (voting after)) + 1 ≤ count_of q (voting after)
      → Overlap p q (voting (latest_conf s).servers)
  IsChanged-Overlap s after p q (as_before e) single old new =
      close-Overlap p q (voting (latest_conf s).servers) (voting (latest_conf s).servers) 0
        (omega arith) (omega arith) old (rw (← e) new)
  IsChanged-Overlap s after p q (one_more c e) single old new =
      let before = (latest_conf s).servers in
      elim (Bool-cases c.learner) [
        | inl learns ↦
            close-Overlap p q (voting before) (voting (before ++ (c ∷ []))) 0
              (omega (arith, counted q c before, ap (count_of q) (learned c learns)))
              (omega (arith, lengths c before, ap length (learned c learns))) old (rw (← e) new)
        | inr votes ↦
            close-Overlap p q (voting before) (voting (before ++ (c ∷ []))) 1
              (omega (
                arith,
                counted q c before,
                ap (count_of q) (votes_too c votes),
                count_of_one q c.id,
              ))
              (omega (arith, lengths c before, ap length (votes_too c votes))) old (rw (← e) new)
      ]
  IsChanged-Overlap s after p q (one_less id e) single old new =
      let before = (latest_conf s).servers in
      close-Overlap p q (voting before) (voting (without_server id before)) 0
        (omega (arith, count-voting-without q id before))
        (omega (arith, length-voting-without id before, single id)) old (rw (← e) new)

  -- A leader admits the server that has joined, or dismisses one, where no server occurs twice in
  -- its latest configuration. Then a majority of the voters of that configuration and a majority of
  -- those of the configuration that is the latest one afterwards share a voter.
  pub change-Overlap :
      (env : Surroundings) (ch : Change) (s : Server Store) (p q : ℕ → Bool)
      → ((id : ℕ) → count_of (λ x. x == id) (voting (latest_conf s).servers) ≤ 1)
      → quorum_size 0 (length (voting (latest_conf s).servers)) + 1
        ≤ count_of p (voting (latest_conf s).servers)
      → quorum_size 0 (length (voting (latest_conf (change L env ch s)).servers)) + 1
        ≤ count_of q (voting (latest_conf (change L env ch s)).servers)
      → Overlap p q (voting (latest_conf s).servers)
  change-Overlap env ch s p q =
      IsChanged-Overlap s (latest_conf (change L env ch s)).servers p q (change-IsChanged env ch s)
