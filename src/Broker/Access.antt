-- ===== src/Broker/Access.antt =====
-- access/access.go: the permission matrix of the broker.
pub mod Decisions
pub mod Changes
use neuralgentics.Prelude.{
  String, Bool, true, false, not, List, [], ◌∷◌, ◌++◌, Option, none, some, ◌==◌, string_comparable,
  lookup, insert, sort_strings, contains, keys, map, select, if◌then◌else◌,
}

-- `Role` is a string type; the constants are the names that the program knows.
abbrev pub Role : Type 0
Role = String

pub record AccessControl : Type 0 where
  pub server_roles : List (String × List Role)

-- DefaultServerRoles
unfoldable pub default_server_roles : List (String × List Role)
default_server_roles =
    ("memoryManager", [])
    ∷ ("neuralgentics", [])
    ∷ ("github-mcp", "boomerang-git" ∷ [])
    ∷ ("playwright", "tester" ∷ "boomerang-tester" ∷ "boomerang-scraper" ∷ "researcher" ∷ [])
    ∷ (
      "searxng",
      "architect" ∷ "coder" ∷ "boomerang-architect" ∷ "boomerang-coder" ∷ "boomerang-scraper"
          ∷ "researcher" ∷ "linter" ∷ "boomerang-linter" ∷ "git" ∷ "boomerang-git" ∷ [],
    )
    ∷ (
      "webfetch",
      "architect" ∷ "coder" ∷ "boomerang-architect" ∷ "boomerang-coder" ∷ "boomerang-scraper"
          ∷ "researcher" ∷ "tester" ∷ "boomerang-tester" ∷ "linter" ∷ "boomerang-linter" ∷ "git"
          ∷ "boomerang-git" ∷ [],
    )
    ∷ (
      "websearch",
      "architect" ∷ "coder" ∷ "boomerang-architect" ∷ "boomerang-coder" ∷ "boomerang-scraper"
          ∷ "researcher" ∷ "tester" ∷ "boomerang-tester" ∷ "linter" ∷ "boomerang-linter" ∷ "git"
          ∷ "boomerang-git" ∷ [],
    )
    ∷ (
      "markitdown",
      "architect" ∷ "boomerang-architect" ∷ "writer" ∷ "boomerang-writer" ∷ "git" ∷ "boomerang-git"
          ∷ "boomerang-release" ∷ [],
    )
    ∷ []

-- The copy loop of `NewAccessControl`: every entry is written into a new map.
copy_from : List (String × List Role) → List (String × List Role) → List (String × List Role)
copy_from copied [] = copied
copy_from copied ((name, roles) ∷ rest) = copy_from (insert name roles copied) rest

unfoldable pub new_access_control : List (String × List Role) → AccessControl
unfolding copy_from insert
new_access_control server_roles = record { server_roles = copy_from [] server_roles }

unfoldable pub default_access_control : AccessControl
unfolding new_access_control default_server_roles
default_access_control = new_access_control default_server_roles

abbrev pub permits : Role → Option (List Role) → Bool
permits role none = true
permits role (some []) = true
permits role (some (r ∷ roles)) = contains role (r ∷ roles)

unfoldable pub can_access : AccessControl → Role → String → Bool
can_access ac role server =
    if role == "orchestrator" then true else permits role (lookup server ac.server_roles)

-- The loop of `GetAccessibleServers`, whose two inner branches append the name once.
unfoldable pub get_accessible_servers : AccessControl → Role → List String
unfolding sort_strings
get_accessible_servers ac role =
    if role == "orchestrator"
    then sort_strings (keys ac.server_roles)
    else sort_strings (keys (select (λ e. permits role (some e.1)) ac.server_roles))

unfoldable pub server_names : AccessControl → List String
unfolding sort_strings
server_names ac = sort_strings (keys ac.server_roles)

-- A new list for a server that has none, else the role at the end of a list that lacks it.
abbrev granted : Role → String → AccessControl → Option (List Role) → AccessControl
granted role server ac none = record { server_roles = insert server (role ∷ []) ac.server_roles }
granted role server ac (some roles) =
    if contains role roles
    then ac
    else record { server_roles = insert server (roles ++ role ∷ []) ac.server_roles }

unfoldable pub grant : AccessControl → Role → String → AccessControl
grant ac role server = granted role server ac (lookup server ac.server_roles)

abbrev revoked : Role → String → AccessControl → Option (List Role) → AccessControl
revoked role server ac none = ac
revoked role server ac (some roles) = record {
  server_roles = insert server (select (λ r. not (r == role)) roles) ac.server_roles;
}

unfoldable pub revoke : AccessControl → Role → String → AccessControl
revoke ac role server = revoked role server ac (lookup server ac.server_roles)

-- Roles: a copy of the matrix.
unfoldable pub roles_map : AccessControl → List (String × List String)
unfolding copy_from insert
roles_map ac = copy_from [] ac.server_roles

pub all_roles : List Role
all_roles =
    "orchestrator" ∷ "coder" ∷ "architect" ∷ "explorer" ∷ "tester" ∷ "writer" ∷ "linter" ∷ "git"
    ∷ "researcher" ∷ "reviewer" ∷ "boomerang-coder" ∷ "boomerang-architect" ∷ "boomerang-explorer"
    ∷ "boomerang-tester" ∷ "boomerang-linter" ∷ "boomerang-git" ∷ "boomerang-writer"
    ∷ "boomerang-scraper" ∷ "boomerang-release" ∷ "boomerang-init" ∷ "boomerang-handoff"
    ∷ "boomerang-agent-builder" ∷ "mcp-specialist" ∷ []
