-- ===== src/Config/RoundTrip.antt =====
-- A configuration that is saved and loaded: members/nullnet-server/src/services/input.rs and
-- members/nullnet-server/src/db/stacks.rs.
use mathlib.Core.Path.{ap₂, subst}
use mathlib.Core.List.{Perm}
use mathlib.Core.List.Perm
use nullnet.Prelude.{
  >>=-eq-some, All, List, Map, Text, all, ap, false, get, get-insert_self, insert, map, not, some,
  sym, true, ℕ, ◌++◌, ◌==◌, ◌∙◌, ◌≡◌, nat_eq, text_eq,
}
use nullnet.Config.{ServiceToml}
use nullnet.Config.Loaded.{triggers_from, branches_from, rows_read}
use nullnet.Config.Orders.{
  has_id-perm, reordered-Apart, read_row, rows_any_order, read_row-AreAlike, AreAlike,
}
use nullnet.Config.Own.{
  ids_from, not_drawn, rows_own, triggers_own, branches_own, order_rows_id, branches-InOrder,
}
use nullnet.Config.Rows.{ServiceInsert, ServiceRow, Json, services_to_inserts}
use nullnet.Config.Saved.{rows_from}
use nullnet.Config.Store.{
  Tables, RowOrder, delete_services, insert_services, put_configuration, put_services, services_for,
  triggers_for, dependencies_for, order_rows, has_id, ids_of, stack_services_from_db,
}
use nullnet.Config.Tables.{
  IsNumbered, Added, insert_services-Added, retain-append, retain_none, retain_all, retain_rest,
  All-map_under, All-retain,
}
use nullnet.Services.Registry.{retain}
use nullnet.Config.Columns.{storable, has_ports, services_back}

-- Of the children of all services, those of the new ones.
own_only :
    {A : Type 0} (key : A → ℕ) (own old : List ℕ) (before new : List A)
    → All (λ r. has_id (key r) own ≡ false) before
    → All (λ r. has_id (key r) own ≡ true) new
    → retain (λ r. has_id (key r) own) (retain (λ r. not (has_id (key r) old)) before ++ new) ≡ new
own_only key own old before new h g =
    retain-append (λ r. has_id (key r) own) (retain (λ r. not (has_id (key r) old)) before) new
    ∙ ap₂ ◌++◌ (retain_none _ _ (All-retain _ _ before h)) (retain_all _ new g)

module _ {D : Type 0} (stack : Text) (ss : List (ServiceInsert D)) (t : Tables D) (t' : Tables D)
    (numbered : IsNumbered t) (added : Added stack ss (delete_services stack t) t') where
  abbrev own : List (ServiceRow D)
  own = rows_from stack t.next_id ss

  own_services : (o : RowOrder D) → services_for o stack t' ≡ o.services own
  unfolding services_for delete_services
  own_services o = ap o.services (
      ap (retain (λ r. r.stack == stack)) added.services
      ∙ retain-append _ (retain (λ r. not (r.stack == stack)) t.services) own
      ∙ ap₂ ◌++◌ (retain_rest (λ r. r.stack == stack) t.services)
          (retain_all _ _ (rows_own stack t.next_id ss)))

  abbrev own_ids : List ℕ
  own_ids = ids_from stack t.next_id ss

  abbrev old_ids : List ℕ
  old_ids = ids_of (retain (λ r. r.stack == stack) t.services)

  -- The children are those of the new services, in whatever order their keys were read.
  module _ (ids : List ℕ) (same : (k : ℕ) → has_id k ids ≡ has_id k own_ids) where
    own_triggers :
        (o : RowOrder D) → triggers_for o ids t' ≡ o.triggers (triggers_from t.next_id ss)
    unfolding triggers_for delete_services
    own_triggers o = ap o.triggers (
        ap (retain (λ r. has_id r.service_id ids)) added.triggers
        ∙ own_only (λ r. r.service_id) ids old_ids t.triggers (triggers_from t.next_id ss)
            (All-map_under _ _ t.triggers
              (λ r h. same r.service_id ∙ not_drawn stack r.service_id t.next_id ss h)
              numbered.triggers)
            (All-map_under _ _ (triggers_from t.next_id ss) (λ r h. same r.service_id ∙ h)
              (triggers_own stack t.next_id ss)))

    own_dependencies : dependencies_for ids t' ≡ branches_from t.next_id ss
    unfolding dependencies_for delete_services
    own_dependencies =
        ap order_rows (
          ap (retain (λ r. has_id r.service_id ids)) added.dependencies
          ∙ own_only (λ r. r.service_id) ids old_ids t.dependencies (branches_from t.next_id ss)
              (All-map_under _ _ t.dependencies
                (λ r h. same r.service_id ∙ not_drawn stack r.service_id t.next_id ss h)
                numbered.dependencies)
              (All-map_under _ _ (branches_from t.next_id ss) (λ r h. same r.service_id ∙ h)
                (branches_own stack t.next_id ss)))
        ∙ order_rows_id _ (branches-InOrder t.next_id ss)

module _ (j : Json) where
  -- What is loaded: each row of the stack with its children, in the orders that were chosen.
  loaded :
      (o : RowOrder j.Doc) (stack : Text) (ss : List (ServiceInsert j.Doc)) (t t' : Tables j.Doc)
      {now : ℕ}
      → IsNumbered t
      → Added stack ss (delete_services stack t) t'
      → get stack t'.stacks ≡ some now
      → stack_services_from_db j o stack t'
        ≡ some (
            map
              (read_row j (o.triggers (triggers_from t.next_id ss)) (branches_from t.next_id ss))
              (o.services (rows_from stack t.next_id ss)))
  unfolding stack_services_from_db
  loaded o stack ss t t' numbered added there =
      let own = rows_from stack t.next_id ss in
      let rows = o.services own in
      let kept = o.services_kept own in
      let same = λ (k : ℕ). has_id-perm k (ids_of rows) (ids_of own) (Perm.map (λ r. r.id) kept) in
      rw
        (
          there,
          own_services stack ss t t' numbered added o,
          own_triggers stack ss t t' numbered added (ids_of rows) same o,
          own_dependencies stack ss t t' numbered added (ids_of rows) same,
        )
        (ap some (
          rows_any_order j rows (o.triggers (triggers_from t.next_id ss))
            (branches_from t.next_id ss) (reordered-Apart stack t.next_id ss rows kept)))

  declared :
      (stack : Text) (n : ℕ) (services : List ServiceToml)
      → all has_ports services ≡ true
      → let ss = services_to_inserts j services in
        map (read_row j (triggers_from n ss) (branches_from n ss)) (rows_from stack n ss)
        ≡ map storable services
  declared stack n services ports =
      let ss = services_to_inserts j services in
      sym (
        rows_any_order j (rows_from stack n ss) (triggers_from n ss) (branches_from n ss)
          (reordered-Apart stack n ss (rows_from stack n ss) (Perm.refl _)))
      ∙ rows_read j stack n ss
      ∙ services_back j services ports

  -- A stack that was saved is loaded as it was declared, but for the order of its services, the
  -- order of each service's peers, and the timeouts and limits that no column can hold, whatever
  -- other stacks the tables have. The tables answer in any order where none is asked for.
  pub load-save :
      (o : RowOrder j.Doc) (stack : Text) (now : ℕ) (services : List ServiceToml) (t : Tables j.Doc)
      {t' : Tables j.Doc}
      → IsNumbered t
      → all has_ports services ≡ true
      → put_services stack now (services_to_inserts j services) t ≡ some t'
      → (read : List ServiceToml) × (same_peers : List ServiceToml) × (stack_services_from_db j o
            stack t'
          ≡ some read)
        × AreAlike read same_peers
        × Perm same_peers (map storable services)
  unfolding put_services put_configuration
  load-save o stack now services t {t'} numbered ports saved =
      let ss = services_to_inserts j services in
      let u : Tables j.Doc = record t { stacks = insert stack now t.stacks } in
      let (t1, inserted, last) =
        >>=-eq-some (insert_services stack ss (delete_services stack u))
          (λ (t2 : Tables j.Doc). some t2) saved in
      let same : t1 ≡ t' = cc in
      let added = insert_services-Added stack ss (delete_services stack u) (rw same at inserted) in
      let kept : IsNumbered u = record {
        services = numbered.services;
        triggers = numbered.triggers;
        dependencies = numbered.dependencies;
      } in
      let own = rows_from stack t.next_id ss in
      let ts = triggers_from t.next_id ss in
      let ds = branches_from t.next_id ss in
      (
        map (read_row j (o.triggers ts) ds) (o.services own),
        map (read_row j ts ds) (o.services own),
        loaded o stack ss u t' {now = now} kept added (there added.stacks),
        read_row-AreAlike j (o.services own) (o.triggers ts) ts ds (o.triggers_kept ts),
        subst (Perm (map (read_row j ts ds) (o.services own)))
            (declared stack t.next_id services ports)
            (Perm.map (read_row j ts ds) (o.services_kept own)),
      )
    where
      there : {s : Map Text ℕ} → s ≡ insert stack now t.stacks → get stack s ≡ some now
      there e = rw e (get-insert_self stack now t.stacks)
