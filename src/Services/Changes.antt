-- ===== src/Services/Changes.antt =====
-- Which changes the server finds: members/nullnet-server/src/services/changes.rs.
use nullnet.Prelude.{
  Bool, List, Map, Option, Text, [], all, any, eqb, false, get, if◌then◌else◌, length, ltb, map,
  none, not, some, true, ℕ, ◌&&◌, ◌*◌, ◌++◌, ◌==◌, ◌||◌, ◌∷◌, nat_eq, text_eq, option_eq,
}
use nullnet.Addr.{IpAddr, ip_eq}
use nullnet.Clients.Info.{Client, client_eq}
use nullnet.Services.{Replica, ServiceInfo, unregistered, registered, timeout, proxy_deps, triggers}
use nullnet.Services.Chains.{ServiceMap, Identity}
use nullnet.Services.Members.{is_some}
use nullnet.Services.Views.{is_proxy, expired_proxy_clients, has_replica_on_ip}

pub data ServiceChange : Type 0 where
  removed : Text → ServiceChange
  proxy_deps_changed : Text → ServiceChange
  triggers_changed : Text → ServiceChange
  reachability_changed : Text → (now_reachable : Bool) → ServiceChange
  replicas_removed : Text → IpAddr → ServiceChange
  replica_removed : Text → IpAddr → Option Text → ServiceChange
  proxy_disconnected : IpAddr → ServiceChange
  proxy_client_timed_out : Text → Client → ServiceChange
  stale_session_evicted : Text → Client → ServiceChange
  force_session_teardown : Text → Client → ServiceChange

pub data ProxyFilter : Type 0 where
  everyone : ProxyFilter
  by_ip : IpAddr → ProxyFilter
  by_client : Client → ProxyFilter
  on_replica : IpAddr → Option Text → ProxyFilter
  on_ip : IpAddr → ProxyFilter

abbrev pub chosen : ProxyFilter → Client → Identity → Bool
chosen everyone client at = true
chosen (by_ip ip) client at = client.proxy == some ip
chosen (by_client c) client at = client == c
chosen (on_replica ip docker) client at = at.0 == ip && at.1 == docker
chosen (on_ip ip) client at = at.0 == ip

-- Only clients of a proxy match a filter.
unfoldable pub matches : ProxyFilter → Client → Identity → Bool
matches filter client at = is_proxy client && chosen filter client at

-- Equality of `Vec`, and of `HashMap`, which does not read the order.
abbrev pub same_list {ℓ} : {A : Type ℓ} → (A → A → Bool) → List A → List A → Bool
same_list eq [] [] = true
same_list eq (x ∷ xs) (y ∷ ys) = eq x y && same_list eq xs ys
same_list eq _ _ = false

abbrev pub same_map : Map ℕ Text → Map ℕ Text → Bool
same_map a b = eqb (length a) (length b) && all (λ (k, v). get k b == some v) a

abbrev pub same_deps : List (List Text) → List (List Text) → Bool
same_deps a b = same_list (same_list (λ s t. s == t)) a b

abbrev pub push_if {ℓ} : {A : Type ℓ} → Bool → A → List A
push_if true x = x ∷ []
push_if false x = []

unfoldable pub removed_services : ServiceMap → ServiceMap → List ServiceChange
removed_services [] loaded = []
removed_services ((name, si) ∷ current) loaded =
    push_if (not (is_some (get name loaded))) (removed name) ++ removed_services current loaded

-- A tighter timeout, or the first one, expires clients that are past it.
abbrev pub tightened : Option ℕ → Option ℕ → Option ℕ
tightened (some new) (some old) =
    if not (eqb new old) && ltb 0 new && (eqb old 0 || ltb new old) then some new else none
tightened (some new) none = none
tightened none old = none

abbrev pub expired_by : (now : ℕ) → Text → Option ℕ → ServiceInfo → List ServiceChange
expired_by now name none old = []
expired_by now name (some new) (unregistered u) = []
expired_by now name (some new) (registered reg) =
    map (proxy_client_timed_out name) (expired_proxy_clients now (new * 1000) reg)

abbrev pub differ : Bool → Bool → Bool
differ true b = not b
differ false b = b

-- What differs between the two declarations of a service.
abbrev pub differences : (now : ℕ) → Text → ServiceInfo → ServiceInfo → List ServiceChange
differences now name new old =
    let reachable = is_some (timeout new) in
    let was = is_some (timeout old) in
    push_if (reachable && not (same_deps (proxy_deps new) (proxy_deps old)))
      (proxy_deps_changed name)
    ++ (push_if (not (same_map (triggers new) (triggers old))) (triggers_changed name)
        ++ (if differ reachable was
            then reachability_changed name reachable ∷ []
            else expired_by now name (tightened (timeout new) (timeout old)) old))

abbrev changes_of : (now : ℕ) → Text → ServiceInfo → Option ServiceInfo → List ServiceChange
changes_of now name new none = []
changes_of now name new (some old) = differences now name new old

unfoldable pub changed_services : (now : ℕ) → ServiceMap → ServiceMap → List ServiceChange
changed_services now current [] = []
changed_services now current ((name, new) ∷ loaded) =
    changes_of now name new (get name current) ++ changed_services now current loaded

unfoldable pub detect_config_changes : (now : ℕ) → ServiceMap → ServiceMap → List ServiceChange
unfolding removed_services changed_services
detect_config_changes now current loaded =
    removed_services current loaded ++ changed_services now current loaded

-- The replicas of the sender that its list no longer names.
unfoldable pub missing_replicas :
    Text → IpAddr → List (Text × ℕ × Option Text) → List Replica → List ServiceChange
missing_replicas name sender listed [] = []
missing_replicas name sender listed (r ∷ rs) =
    push_if (r.ip == sender && not (any (λ (n, p, d). n == name && d == r.docker_container) listed))
      (replica_removed name sender r.docker_container)
    ++ missing_replicas name sender listed rs

abbrev replicas_in : ServiceInfo → List Replica
replicas_in (unregistered u) = []
replicas_in (registered reg) = reg.replicas

unfoldable pub detect_services_list_changes :
    ServiceMap → IpAddr → List (Text × ℕ × Option Text) → List ServiceChange
unfolding missing_replicas
detect_services_list_changes [] sender listed = []
detect_services_list_changes ((name, si) ∷ current) sender listed =
    missing_replicas name sender listed (replicas_in si)
    ++ detect_services_list_changes current sender listed

-- Whether a client of the proxy stands on some replica.
unfoldable pub has_client_of_proxy : IpAddr → ServiceInfo → Bool
has_client_of_proxy ip si =
    any (λ (r : Replica). any (λ (c, ci). c.proxy == some ip) r.clients.clients) (replicas_in si)

unfoldable pub gone_from : IpAddr → ServiceMap → List ServiceChange
unfolding has_replica_on_ip
gone_from ip [] = []
gone_from ip ((name, si) ∷ current) =
    push_if (any (λ (r : Replica). r.ip == ip) (replicas_in si)) (replicas_removed name ip)
    ++ gone_from ip current

unfoldable pub detect_node_disconnect_changes : ServiceMap → IpAddr → List ServiceChange
unfolding gone_from has_client_of_proxy
detect_node_disconnect_changes current ip =
    gone_from ip current
    ++ push_if (any (λ (name, si). has_client_of_proxy ip si) current) (proxy_disconnected ip)
