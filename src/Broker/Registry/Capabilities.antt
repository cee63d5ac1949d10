-- ===== src/Broker/Registry/Capabilities.antt =====
-- `InferCapabilities` of registry.go: the prefixes of the tool names, each once.
use Prim.Native.Char.{code}
use neuralgentics.Prelude.{
  String, ◌≡◌, inl, inr, refl, not, List, [], ◌∷◌, ◌++◌, ◌==◌, ==_iff, string_comparable,
  number_comparable, contains, contains-append, Unique, Unique-concat, Bool-cases, map,
  if◌then◌else◌, arith, ◌&&◌, ◌||◌,
}
use neuralgentics.Broker.Transport.{ToolSummary}

-- strings.SplitN(name, "_", 2)[0]
unfoldable pub first_part : String → String
first_part String.[] = ""
first_part (String.◌∷◌ c s) =
    let rest = first_part s in if code c == b'_' then "" else String.◌∷◌ c rest

-- The loop, with `seen` as the list of its keys.
infer_from : List String → List String → List ToolSummary → List String
unfolding first_part
infer_from seen caps [] = caps
infer_from seen caps (t ∷ ts) =
    let part = first_part t.name in
    let is_new = not (part == "") && not (contains part seen) in
    infer_from (if is_new then part ∷ seen else seen) (if is_new then caps ++ part ∷ [] else caps)
      ts

pub infer_capabilities : List ToolSummary → List String
unfolding infer_from
infer_capabilities tools = infer_from [] [] tools

abbrev parts : List ToolSummary → List String
parts tools = map (λ t. first_part t.name) tools

-- `seen` and `caps` hold the same tags throughout.
abbrev Same : List String → List String → Type 0
Same seen caps = (s : String) → contains s seen ≡ contains s caps

step-Same :
    (part : String) (seen caps : List String)
    → Same seen caps
    → Same (part ∷ seen) (caps ++ part ∷ [])
step-Same part seen caps h s = ground (arith, h s, contains-append s caps (part ∷ []))

contains-infer_from :
    (s : String) (seen caps : List String) (ts : List ToolSummary)
    → Same seen caps
    → contains s (infer_from seen caps ts)
      ≡ (contains s caps || (not (s == "") && contains s (parts ts)))
unfolding infer_from
contains-infer_from s seen caps [] h = ground arith
contains-infer_from s seen caps (t ∷ ts) h =
    let part = first_part t.name in
    elim (Bool-cases (not (part == "") && not (contains part seen))) [
      | inl new ↦ rw new (
          ground (
            arith,
            contains-infer_from s (part ∷ seen) (caps ++ part ∷ []) ts (step-Same part seen caps h),
            contains-append s caps (part ∷ []),
            ==_iff part s,
            ==_iff part "",
            ==_iff s "",
          ))
      | inr old ↦ rw old (
          ground (
            arith,
            contains-infer_from s seen caps ts h,
            h s,
            ==_iff part s,
            ==_iff part "",
            ==_iff s "",
          ))
    ]

infer_from-Unique :
    (seen caps : List String) (ts : List ToolSummary)
    → Same seen caps
    → Unique caps
    → Unique (infer_from seen caps ts)
unfolding infer_from
infer_from-Unique seen caps [] h u = u
infer_from-Unique seen caps (t ∷ ts) h u =
    let part = first_part t.name in
    elim (Bool-cases (not (part == "") && not (contains part seen))) [
      | inl new ↦ rw new (
          infer_from-Unique (part ∷ seen) (caps ++ part ∷ []) ts (step-Same part seen caps h)
            (Unique-concat caps part u (ground (arith, h part))))
      | inr old ↦ rw old (infer_from-Unique seen caps ts h u)
    ]

-- The capabilities are exactly the non-empty prefixes of the tool names, and none is listed twice.
pub infer_capabilities_lem :
    (tools : List ToolSummary) (s : String)
    → Unique (infer_capabilities tools)
      × (contains s (infer_capabilities tools)
          ≡ (not (s == "") && contains s (map (λ t. first_part t.name) tools)))
unfolding infer_capabilities
infer_capabilities_lem tools s =
    (infer_from-Unique [] [] tools (λ a. refl) tt, contains-infer_from s [] [] tools (λ a. refl))
