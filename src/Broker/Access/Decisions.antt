-- ===== src/Broker/Access/Decisions.antt =====
-- Who may access what: `CanAccess`, and the lists that agree with it.
use neuralgentics.Prelude.{
  insert-Distinct, String, ◌≡◌, ◌↔◌, refl, Bool, true, false, List, [], ◌∷◌, Option, none, some,
  ==_iff, string_comparable, lookup, insert, contains, contains_iff, keys, select, In, Distinct,
  arith, In-sort_strings_iff, lookup-insert, lookup-eq-none_iff,
}
use neuralgentics.Broker.Access.{
  roles_map, Role, AccessControl, copy_from, new_access_control, permits, can_access,
  get_accessible_servers, server_names,
}

lookup-copy_from :
    (server : String) (copied rest : List (String × List Role))
    → Distinct rest
    → lookup server (copy_from copied rest)
      ≡ elim (lookup server rest) [ none ↦ lookup server copied | some roles ↦ some roles ]
unfolding copy_from lookup
lookup-copy_from server copied [] d = refl
lookup-copy_from server copied ((name, roles) ∷ rest) d = ground (
  arith,
  lookup-copy_from server (insert name roles copied) rest d.1,
  ==_iff name server,
  lookup-eq-none_iff name rest,
  lookup-insert name server roles copied,
)

-- The copy that the constructor makes answers every read as the given map does.
pub lookup-new_access_control :
    (server : String) (m : List (String × List Role))
    → Distinct m
    → lookup server (new_access_control m).server_roles ≡ lookup server m
unfolding new_access_control lookup
lookup-new_access_control server m d = ground (arith, lookup-copy_from server [] m d)

copy_from-Distinct :
    (copied rest : List (String × List Role)) → Distinct copied → Distinct (copy_from copied rest)
unfolding copy_from
copy_from-Distinct copied [] d = d
copy_from-Distinct copied ((name, list) ∷ rest) d =
    copy_from-Distinct (insert name list copied) rest (insert-Distinct name list copied d)

-- When no server is listed twice, a matrix that `Roles` exports and `NewAccessControl` reads back
-- decides every access as before.
pub new_access_control-roles_map :
    (ac : AccessControl) (role : Role) (server : String)
    → Distinct ac.server_roles
    → can_access (new_access_control (roles_map ac)) role server ≡ can_access ac role server
unfolding can_access roles_map lookup
new_access_control-roles_map ac role server d =
    let there = lookup-copy_from server [] ac.server_roles d in
    let back =
      lookup-new_access_control server (copy_from [] ac.server_roles)
        (copy_from-Distinct [] ac.server_roles tt) in
    ground (arith, there, back)

abbrev met : (List Role → Bool) → Option (List Role) → Bool
met p none = false
met p (some roles) = p roles

contains-keys-select :
    (p : List Role → Bool) (k : String) (m : List (String × List Role))
    → Distinct m
    → contains k (keys (select (λ e. p e.1) m)) ≡ met p (lookup k m)
unfolding lookup
contains-keys-select p k [] d = refl
contains-keys-select p k ((j, v) ∷ m) d =
    ground (arith, contains-keys-select p k m d.1, ==_iff j k, ==_iff k j, lookup-eq-none_iff j m)

-- When no server is listed twice, `GetAccessibleServers` lists exactly the registered servers that
-- `CanAccess` allows the role.
pub get_accessible_servers_iff :
    (ac : AccessControl) (role : Role) (server : String)
    → Distinct ac.server_roles
    → In server (get_accessible_servers ac role)
      ↔ ((can_access ac role server ≡ true) × In server (server_names ac))
unfolding get_accessible_servers can_access server_names
get_accessible_servers_iff ac role server d =
    let m = ac.server_roles in
    let allowed = λ (roles : List Role). permits role (some roles) in
    let listed = keys (select (λ e. allowed e.1) m) in
    ground (
      arith,
      contains-keys-select allowed server m d,
      contains_iff server listed,
      contains_iff server (keys m),
      In-sort_strings_iff server listed,
      In-sort_strings_iff server (keys m),
      lookup-eq-none_iff server m,
    )
