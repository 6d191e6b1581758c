-- ===== src/Services/Applied.antt =====
-- The changes applied to a stack, as calls that return:
-- members/nullnet-server/src/services/changes.rs.
use nullnet.Prelude.{
  All-insert, All-remove, Bool, Bool-cases, List, Option, Text, [], false, get, if◌then◌else◌, inl,
  inr, none, refl, some, true, ℕ, ◌+◌, ◌<◌, ◌^◌, ◌∷◌, ◌≡◌, text_eq,
}
use nullnet.Addr.{IpAddr, ip_eq}
use nullnet.Clients.Info.{Client}
use nullnet.Services.{Replica, RegisteredServiceInfo, ServiceInfo, registered, unregistered, new}
use nullnet.Services.Apply.{
  forget, teardown_backend_chain, teardown_all_backend_chains_for, renewed, reset_failed,
  cleanup_service, teardown_invalidated_service, affected_by, teardown_source, partial_at,
  teardown_partial_replicas, modify, leave, drop_replicas, drop_replica, when_routine,
  forget_service, apply_change, merge_loaded, merged, apply_changes,
}
use nullnet.Services.Chains.{Identity, ServiceMap, matching_trigger_ports}
use nullnet.Services.Changes.{
  ServiceChange, ProxyFilter, everyone, by_ip, by_client, on_replica, on_ip,
}
use nullnet.Services.Registry.{
  retain, remove_replica, remove_replicas_on_ip, update_from_file, with_replicas,
}
use nullnet.Services.Sound.{Returns, SoundReplicas, SoundService}
use nullnet.Services.Teardown.{Effect, World, decrement_edge}
use nullnet.Services.Triggers.{Any, edges_to_release-Returns}
use nullnet.Services.Total.{
  returned, bind-Returns, for_each-Returns, SoundMap, SoundWorld, Found, get-Found, put-Sound,
  decrement_edge-Returns, teardown_chain-Returns,
}

module _ (n : ℕ) where
  retain-Sound :
      (p : Replica → Bool) (rs : List Replica) → SoundReplicas n rs → SoundReplicas n (retain p rs)
  unfolding retain
  retain-Sound p [] a = tt
  retain-Sound p (r ∷ rs) (h, a) = elim (Bool-cases (p r)) [
    | inl stays ↦ rw stays (h, retain-Sound p rs a)
    | inr goes ↦ rw goes (retain-Sound p rs a)
  ]

  with_replicas-Sound :
      (rs : List Replica) (reg : RegisteredServiceInfo)
      → SoundReplicas n rs
      → SoundService n (with_replicas reg rs)
  unfolding with_replicas
  with_replicas-Sound [] reg a = tt
  with_replicas-Sound (r ∷ rs) reg a = a

  on_ip-Sound :
      (ip : IpAddr) (si : ServiceInfo)
      → SoundService n si
      → SoundService n (remove_replicas_on_ip ip si)
  unfolding remove_replicas_on_ip
  on_ip-Sound ip (unregistered u) a = tt
  on_ip-Sound ip (registered reg) a = with_replicas-Sound _ reg (retain-Sound _ reg.replicas a)

  replica-Sound :
      (ip : IpAddr) (docker : Option Text) (si : ServiceInfo)
      → SoundService n si
      → SoundService n (remove_replica ip docker si)
  unfolding remove_replica
  replica-Sound ip docker (unregistered u) a = tt
  replica-Sound ip docker (registered reg) a =
      with_replicas-Sound _ reg (retain-Sound _ reg.replicas a)

  renewed-Sound : (si : ServiceInfo) → SoundService n (renewed si)
  unfolding new
  renewed-Sound si = tt

  reset-Sound :
      (name : Text) (o : Option ServiceInfo) (w : World)
      → SoundWorld n w
      → SoundWorld n (reset_failed name o w)
  reset-Sound name none w h = h
  reset-Sound name (some (unregistered u)) w h = h
  reset-Sound name (some (registered reg)) w h =
      put-Sound n name _ w h (renewed-Sound (registered reg))

  modify-Sound :
      (routine : Bool) (name : Text) (f : ServiceInfo → ServiceInfo)
      → ((si : ServiceInfo) → SoundService n si → SoundService n (f si))
      → (o : Option ServiceInfo) (w : World) → SoundWorld n w
      → Found n o
      → SoundWorld n (modify routine name f o w)
  modify-Sound routine name f keep none w h a = h
  modify-Sound routine name f keep (some si) w h a = put-Sound n name (f si) w h (keep si a)

  update-Sound :
      (loaded si : ServiceInfo) → SoundService n si → SoundService n (update_from_file loaded si)
  unfolding update_from_file
  update-Sound loaded (unregistered u) a = tt
  update-Sound loaded (registered reg) a = a

  merged-Sound :
      (loaded : ServiceInfo) (o : Option ServiceInfo)
      → SoundService n loaded
      → Found n o
      → SoundService n (merged loaded o)
  merged-Sound loaded none l a = l
  merged-Sound loaded (some si) l a = update-Sound loaded si a

  merge-Sound :
      (routine : Bool) (loaded services : ServiceMap)
      → SoundMap n loaded
      → SoundMap n services
      → SoundMap n (merge_loaded routine loaded services)
  unfolding merge_loaded
  merge-Sound routine [] services l a = a
  merge-Sound routine ((name, si) ∷ rest) services l a = merge-Sound routine rest _ l.1 (
      All-insert (SoundService n) name _ services a
        (merged-Sound si (get name services) l.0 (get-Found n name services a)))

module _ (n : ℕ) (room : n + 1 < 2 ^ 64) where
  abbrev Good : World → Type 0
  Good w = SoundWorld n w

  backend-Returns :
      (name : Text) (at : Identity) (through : Option Text) (port : Option ℕ) (w : World)
      → Good w
      → Returns Good (teardown_backend_chain name at through port w)
  unfolding teardown_backend_chain
  backend-Returns name at through port w h =
      let ports = matching_trigger_ports name through port w.services in
      bind-Returns Any Good _ _
        (edges_to_release-Returns name at through ports w.services w.sessions)
        (λ a done.
          bind-Returns Good Good _ _
            (for_each-Returns Good decrement_edge (decrement_edge-Returns n room) _ _ h)
            (λ w' h'. returned Good (forget name at ports w') h'))

  all_backend-Returns :
      (name : Text) (through : Option Text) (w : World)
      → Good w
      → Returns Good (teardown_all_backend_chains_for name through w)
  unfolding teardown_all_backend_chains_for
  all_backend-Returns name through w h =
      for_each-Returns Good _ (λ at w' h'. backend-Returns name at through none w' h') _ w h

  module _ (routine : Bool) where
    cleanup-Returns :
        (invalidated name : Text) (w : World)
        → Good w
        → Returns Good (cleanup_service routine invalidated name w)
    unfolding cleanup_service
    cleanup-Returns invalidated name w h =
        bind-Returns Good Good _ _ (teardown_chain-Returns n room routine name everyone w h)
          (λ w' h'. all_backend-Returns name _ w' h')

    invalidated-Returns :
        (name : Text) (failed : Bool) (w : World)
        → Good w
        → Returns Good (teardown_invalidated_service routine name failed w)
    unfolding teardown_invalidated_service
    invalidated-Returns name failed w h =
        bind-Returns Good Good _ _
          (for_each-Returns Good _ (λ s w' h'. cleanup-Returns name s w' h') _ w h)
          (λ w' h'.
            elim failed
              as (λ f.
                Returns Good
                  (some (if f then reset_failed name (get name w'.services) w' else w'))) [
                    | true ↦ returned Good _ (reset-Sound n name (get name w'.services) w' h')
                    | false ↦ returned Good w' h'
                  ])

    source-Returns :
        (name : Text) (c : Client) (o : Option Identity) (w : World)
        → Good w
        → Returns Good (teardown_source routine name c o w)
    source-Returns name c none w h = returned Good w h
    source-Returns name c (some (ip, docker)) w h =
        bind-Returns Good Good _ _ (teardown_chain-Returns n room routine c.name _ w h)
          (λ w' h'. backend-Returns c.name (ip, docker) (some name) none w' h')

    partial_at-Returns :
        (name : Text) (filter : ProxyFilter) (o : Option ServiceInfo) (w : World)
        → Good w
        → Returns Good (partial_at routine name filter o w)
    unfolding partial_at
    partial_at-Returns name filter none w h = returned Good w h
    partial_at-Returns name filter (some (unregistered u)) w h = returned Good w h
    partial_at-Returns name filter (some (registered reg)) w h =
        bind-Returns Good Good _ _
          (for_each-Returns Good _ (λ (c : Client) w' h'. source-Returns name c c.replica w' h')
            (affected_by routine filter reg) w h)
          (λ w' h'. teardown_chain-Returns n room routine name filter w' h')

    leave-Returns :
        (name : Text) (filter : ProxyFilter) (ats : List Identity)
        (drop : ServiceInfo → ServiceInfo)
        → ((si : ServiceInfo) → SoundService n si → SoundService n (drop si))
        → (w : World) → Good w
        → Returns Good (leave routine name filter ats drop w)
    unfolding leave teardown_partial_replicas
    leave-Returns name filter ats drop keep w h =
        bind-Returns Good Good _ _
          (for_each-Returns Good _ (λ at w' h'. backend-Returns name at none none w' h') ats w h)
          (λ w' h'.
            bind-Returns Good Good _ _ (partial_at-Returns name filter (get name w'.services) w' h')
              (λ w'' h''. returned Good _ (
                modify-Sound n routine name drop keep (get name w''.services) w'' h''
                  (get-Found n name w''.services h''))))

    on_ip-Returns :
        (name : Text) (ip : IpAddr) (replicas : List Replica) (last : Bool) (w : World)
        → Good w
        → Returns Good (drop_replicas routine name ip replicas last w)
    unfolding drop_replicas
    on_ip-Returns name ip replicas true w h = invalidated-Returns name true _ h
    on_ip-Returns name ip replicas false w h =
        leave-Returns name (on_ip ip) _ (remove_replicas_on_ip ip) (on_ip-Sound n ip) w h

    replica-Returns :
        (name : Text) (ip : IpAddr) (docker : Option Text) (last : Bool) (w : World)
        → Good w
        → Returns Good (drop_replica routine name ip docker last w)
    unfolding drop_replica
    replica-Returns name ip docker true w h = invalidated-Returns name true w h
    replica-Returns name ip docker false w h =
        leave-Returns name (on_replica ip docker) ((ip, docker) ∷ []) (remove_replica ip docker)
          (replica-Sound n ip docker) w h

    when_routine-Good : (e : Effect) (w : World) → Good w → Good (when_routine routine e w)
    when_routine-Good e w h = elim routine as (λ r. Good (when_routine r e w)) [
      | true ↦ h
      | false ↦ h
    ]

    change-Returns :
        (c : ServiceChange) (w : World) → Good w → Returns Good (apply_change routine c w)
    unfolding apply_change
    change-Returns (ServiceChange.removed name) w h =
        bind-Returns Good Good _ _ (invalidated-Returns name true _ (when_routine-Good _ w h))
          (λ w' h'.
            returned Good (forget_service routine name w')
              (All-remove (SoundService n) name w'.services h'))
    change-Returns (ServiceChange.proxy_deps_changed name) w h = invalidated-Returns name false w h
    change-Returns (ServiceChange.triggers_changed name) w h = all_backend-Returns name none w h
    change-Returns (ServiceChange.reachability_changed name reachable) w h =
        bind-Returns Good Good _ _ (teardown_chain-Returns n room routine name everyone _ h)
          (λ w' h'. all_backend-Returns name none w' h')
    change-Returns (ServiceChange.replicas_removed name ip) w h = on_ip-Returns name ip _ _ w h
    change-Returns (ServiceChange.replica_removed name ip docker) w h =
        replica-Returns name ip docker _ w h
    change-Returns (ServiceChange.proxy_disconnected ip) w h =
        for_each-Returns Good _
          (λ (name : Text) w' h'. teardown_chain-Returns n room routine name (by_ip ip) w' h') _ w h
    change-Returns (ServiceChange.proxy_client_timed_out name client) w h =
        teardown_chain-Returns n room routine name (by_client client) _ (when_routine-Good _ w h)
    change-Returns (ServiceChange.stale_session_evicted name client) w h =
        teardown_chain-Returns n room routine name (by_client client) w h
    change-Returns (ServiceChange.force_session_teardown name client) w h =
        teardown_chain-Returns n room routine name (by_client client) w h

    pub changes-Returns :
        (cs : List ServiceChange) (loaded : Option ServiceMap) (w : World)
        → Good w
        → ((l : ServiceMap) → loaded ≡ some l → SoundMap n l)
        → Returns Good (apply_changes routine cs loaded w)
    unfolding apply_changes
    changes-Returns cs none w h l =
        bind-Returns Good Good _ _ (for_each-Returns Good _ change-Returns cs w h)
          (λ w' h'. returned Good w' h')
    changes-Returns cs (some m) w h l =
        bind-Returns Good Good _ _ (for_each-Returns Good _ change-Returns cs w h)
          (λ w' h'. returned Good _ (merge-Sound n routine m w'.services (l m refl) h'))
