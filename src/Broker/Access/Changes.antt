-- ===== src/Broker/Access/Changes.antt =====
-- What `Grant` and `Revoke` change.
use neuralgentics.Prelude.{
  String, ◌≡◌, ◌≢◌, refl, Bool, true, false, not, List, [], ◌∷◌, ◌++◌, Option, none, some, ◌==◌,
  ==_iff, ==_self, string_comparable, lookup, contains, contains-append, select, if◌then◌else◌,
  arith, lookup-insert, ◌||◌, ◌&&◌,
}
use neuralgentics.Broker.Access.{
  Role, AccessControl, permits, can_access, granted, revoked, grant, revoke,
}

contains-without :
    (a b : Role) (roles : List Role)
    → contains a (select (λ r. not (r == b)) roles) ≡ (contains a roles && not (b == a))
contains-without a b [] = refl
contains-without a b (r ∷ roles) =
    ground (arith, contains-without a b roles, ==_iff r b, ==_iff r a, ==_iff b a)

-- Whether a server has a list that names the role.
abbrev pub named : Role → Option (List Role) → Bool
named role none = false
named role (some roles) = contains role roles

-- The list that `Grant` leaves.
granted_list : Role → Option (List Role) → List Role
granted_list role none = role ∷ []
granted_list role (some roles) = if contains role roles then roles else roles ++ role ∷ []

permits-granted_list :
    (role other : Role) (o : Option (List Role))
    → permits other (some (granted_list role o)) ≡ (named other o || role == other)
unfolding granted_list
permits-granted_list role other none = ground arith
permits-granted_list role other (some []) = ground arith
permits-granted_list role other (some (r ∷ roles)) =
    ground (arith, contains-append other roles (role ∷ []), ==_iff role other)

permits_without :
    (role kept : Role) (roles : List Role)
    → kept ≢ role
    → contains kept roles ≡ true
    → (other : Role)
    → permits other (some (select (λ r. not (r == role)) roles))
      ≡ (contains other roles && not (role == other))
permits_without role kept roles ne h other =
    go (select (λ r. not (r == role)) roles) (contains-without kept role roles)
      (contains-without other role roles)
  where
    go :
        (rest : List Role)
        → contains kept rest ≡ (contains kept roles && not (role == kept))
        → contains other rest ≡ (contains other roles && not (role == other))
        → permits other (some rest) ≡ (contains other roles && not (role == other))
    go [] p q = absurd (ground (arith, ==_iff role kept))
    go (r ∷ rest) p q = q

module _ (ac : AccessControl) (role : Role) (server : String) where
  lookup-granted :
      (o : Option (List Role))
      → lookup server ac.server_roles ≡ o
      → lookup server (granted role server ac o).server_roles ≡ some (granted_list role o)
  unfolding granted_list
  lookup-granted none e =
      ground (arith, lookup-insert server server (role ∷ []) ac.server_roles, ==_self server)
  lookup-granted (some roles) e =
      ground
        (arith, lookup-insert server server (roles ++ role ∷ []) ac.server_roles, ==_self server)

  -- After `Grant` exactly the orchestrator, the granted role and the roles that the list of the
  -- server named before have access to it.
  pub can_access-grant :
      (other : Role)
      → can_access (grant ac role server) other server ≡ (
          other == "orchestrator" || (named other (lookup server ac.server_roles) || role == other))
  unfolding can_access grant
  can_access-grant other = ground (
    arith,
    lookup-granted (lookup server ac.server_roles) refl,
    permits-granted_list role other (lookup server ac.server_roles),
  )

  granted_frame :
      (o : Option (List Role)) (elsewhere : String)
      → server ≢ elsewhere
      → lookup elsewhere (granted role server ac o).server_roles ≡ lookup elsewhere ac.server_roles
  granted_frame none elsewhere ne =
      ground
        (arith, lookup-insert server elsewhere (role ∷ []) ac.server_roles, ==_iff server elsewhere)
  granted_frame (some roles) elsewhere ne = ground (
    arith,
    lookup-insert server elsewhere (roles ++ role ∷ []) ac.server_roles,
    ==_iff server elsewhere,
  )

  revoked_frame :
      (o : Option (List Role)) (elsewhere : String)
      → server ≢ elsewhere
      → lookup elsewhere (revoked role server ac o).server_roles ≡ lookup elsewhere ac.server_roles
  revoked_frame none elsewhere ne = refl
  revoked_frame (some roles) elsewhere ne = ground (
    arith,
    lookup-insert server elsewhere (select (λ r. not (r == role)) roles) ac.server_roles,
    ==_iff server elsewhere,
  )

  -- `Grant` and `Revoke` on one server change no decision about any other server.
  pub can_access_frame :
      (other : Role) (elsewhere : String)
      → server ≢ elsewhere
      → (can_access (grant ac role server) other elsewhere ≡ can_access ac other elsewhere)
        × (can_access (revoke ac role server) other elsewhere ≡ can_access ac other elsewhere)
  unfolding can_access grant revoke
  can_access_frame other elsewhere ne = (
    ground (arith, granted_frame (lookup server ac.server_roles) elsewhere ne),
    ground (arith, revoked_frame (lookup server ac.server_roles) elsewhere ne),
  )

  lookup-revoke :
      (roles : List Role)
      → lookup server ac.server_roles ≡ some roles
      → lookup server (revoke ac role server).server_roles
        ≡ some (select (λ r. not (r == role)) roles)
  unfolding revoke
  lookup-revoke roles e = rw (e, revoke) (rw lookup-insert (ground (arith, ==_self server)))

  -- While another role stays on the list, `Revoke` shuts out exactly the revoked role: it loses
  -- access unless it is the orchestrator, and every other role keeps its answer.
  pub can_access-revoke :
      (kept : Role) (roles : List Role) (other : Role)
      → lookup server ac.server_roles ≡ some roles
      → kept ≢ role
      → contains kept roles ≡ true
      → can_access (revoke ac role server) other server
        ≡ (other == "orchestrator" || (contains other roles && not (role == other)))
  unfolding can_access
  can_access-revoke kept roles other e ne h =
      ground (arith, lookup-revoke roles e, permits_without role kept roles ne h other)

  -- When the list of a server names one role alone, any other role but the orchestrator has no
  -- access to the server, and has access after `Revoke` of the one role.
  pub revoke_last_opens :
      (other : Role)
      → lookup server ac.server_roles ≡ some (role ∷ [])
      → other ≢ role
      → other ≢ "orchestrator"
      → (can_access ac other server ≡ false)
        × (can_access (revoke ac role server) other server ≡ true)
  unfolding can_access
  revoke_last_opens other e ne no_orchestrator = ground (
    arith,
    lookup-revoke (role ∷ []) e,
    ==_self role,
    ==_iff role other,
    ==_iff other "orchestrator",
  )
