-- ===== src/Services/Walks.antt =====
-- What the walk of a dependency chain finds: members/nullnet-server/src/services/changes.rs.
use nullnet.Prelude.{
  All, Bool, List, Option, Option-cases, Text, [], all, arith, get, inl, inr, none, refl, some,
  true, ◌&&◌, ◌++◌, ◌↔◌, ◌∷◌, ◌≡◌, text_eq,
}
use nullnet.Clients.Info.{new_service}
use nullnet.Services.Members.{is_some}
use nullnet.Services.Chains.{
  ServiceMap, Edge, Identity, live_hop, walk_branch, walk_branches, branches_of,
  collect_dep_chain_edges, dep_chain_intact, emit_edge_and_probe_hop,
}

-- The edge by which a replica of a service uses another service.
abbrev pub edge_to : Text → Identity → Text → Edge
edge_to name at dep = (new_service name (at.0) (at.1), dep)

-- Every hop of the branch is a live client of the next service, and the hop after it starts from
-- the replica that holds that client.
abbrev pub IsConnected : ServiceMap → Text → Identity → List Text → Type 0
IsConnected services name at [] = Unit
IsConnected services name at (dep ∷ deps) =
    (next : Identity) × (live_hop services (edge_to name at dep) ≡ some next)
    × IsConnected services dep next deps

module _ (services : ServiceMap) where
  abbrev intact : List Edge → Bool
  intact edges = all (λ edge. is_some (live_hop services edge)) edges

  intact-append : (xs ys : List Edge) → intact (xs ++ ys) ≡ (intact xs && intact ys)
  intact-append [] ys = refl
  intact-append (x ∷ xs) ys = ground (arith, intact-append xs ys)

  abbrev onward : List Edge → Text → List Text → Option Identity → List Edge
  onward edges dep deps none = edges
  onward edges dep deps (some next) = walk_branch services edges dep next deps

  walk_branch-cons :
      (edges : List Edge) (name : Text) (at : Identity) (dep : Text) (deps : List Text)
      → walk_branch services edges name at (dep ∷ deps)
        ≡ onward
            (edges ++ (edge_to name at dep ∷ []))
            dep
            deps
            (live_hop services (edge_to name at dep))
  unfolding walk_branch emit_edge_and_probe_hop
  walk_branch-cons edges name at dep deps =
      elim (Option-cases (live_hop services (edge_to name at dep))) [
        | inl e ↦ ground (arith, e)
        | inr (next, e) ↦ ground (arith, e)
      ]

  moved :
      (o p : Identity) (name : Text) (branch : List Text)
      → some o ≡ some p
      → IsConnected services name p branch
      → IsConnected services name o branch
  moved o p name branch e c = let same : p ≡ o = cc in rw same at c

  walk_branch-IsConnected :
      (edges : List Edge) (name : Text) (at : Identity) (branch : List Text)
      → (intact (walk_branch services edges name at branch) ≡ true)
        ↔ (intact edges ≡ true) × IsConnected services name at branch
  walk_branch-IsConnected edges name at [] = unfold walk_branch in ground arith
  walk_branch-IsConnected edges name at (dep ∷ deps) =
      let edge = edge_to name at dep in
      elim (Option-cases (live_hop services edge)) [
        | inl e ↦
            rw (walk_branch-cons edges name at dep deps, e)
              (ground (arith, intact-append edges (edge ∷ []), e))
        | inr (next, e) ↦
            let rest = walk_branch-IsConnected (edges ++ (edge ∷ [])) dep next deps in
            rw (walk_branch-cons edges name at dep deps, e)
              (
                λ h.
                    let (before, others) = rest.0 h in
                    (ground (arith, intact-append edges (edge ∷ [])), (next, refl, others)),
                λ (before, (other, here, others)). rest.1 (
                  ground (arith, intact-append edges (edge ∷ []), e),
                  moved next other dep deps here others,
                ),
              )
      ]

  walk_branches-IsConnected :
      (edges : List Edge) (name : Text) (at : Identity) (branches : List (List Text))
      → (intact (walk_branches services edges name at branches) ≡ true)
        ↔ (intact edges ≡ true) × All (IsConnected services name at) branches
  unfolding walk_branches
  walk_branches-IsConnected edges name at [] = ground arith
  walk_branches-IsConnected edges name at (branch ∷ branches) =
      let rest =
        walk_branches-IsConnected (walk_branch services edges name at branch) name at branches in
      let first = walk_branch-IsConnected edges name at branch in
      (
        λ h.
            let (walked, others) = rest.0 h in
            let (before, one) = first.0 walked in (before, (one, others)),
        λ (before, (one, others)). rest.1 (first.1 (before, one), others),
      )

-- A chain is intact exactly if on every branch each hop is a live client of the next service,
-- found on the replica from which the branch goes on.
pub dep_chain_intact_iff :
    (name : Text) (at : Identity) (services : ServiceMap)
    → (dep_chain_intact name at services ≡ true)
      ↔ All (IsConnected services name at) (branches_of (get name services))
unfolding dep_chain_intact collect_dep_chain_edges
dep_chain_intact_iff name at services =
    let walk = walk_branches-IsConnected services [] name at (branches_of (get name services)) in
    (λ h. (walk.0 h).1, λ c. walk.1 (refl, c))
