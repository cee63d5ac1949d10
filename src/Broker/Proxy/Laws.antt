-- ===== src/Broker/Proxy/Laws.antt =====
-- proxy/proxy.go: the requests that wait, under every order of the steps of the callers and readers.
use neuralgentics.Prelude.{
  ℕ, ◌+◌, ◌≤◌, ◌≡◌, ◌⊎◌, inl, inr, refl, ap, ◌∙◌, true, false, none, some, ◌==◌, ==_iff, ==_self,
  number_comparable, lookup, insert, lookup-insert, lookup-delete, if◌then◌else◌, arith,
  Option-cases, Bool-cases, Result, ok, err,
}
use neuralgentics.Broker.Proxy
use neuralgentics.Broker.Proxy.{
  Channel, McpProxy, Response, new_mcp_proxy, waiting, answered, start_reader, reader_ended, stop,
  route, open_request, close_request, receive, Answer, unwritten, silent, replied, awaited, sent,
  send_rpc, not_started, write_failed, timed_out,
}

-- One step of a caller or a reader.
pub data ProxyStep (p : McpProxy) : McpProxy → Type 0 where
  starts : (stdout : ℕ) → ProxyStep p (start_reader stdout p)
  ends : (stdout : ℕ) → ProxyStep p (reader_ended stdout p)
  stops : ProxyStep p (stop p)
  opens : ProxyStep p (open_request p).0
  routes : (id : ℕ) (response : Response) → ProxyStep p (route id response p)
  closes : (id : ℕ) → ProxyStep p (close_request id p)

pub data Reachable : McpProxy → Type 0 where
  fresh : Reachable new_mcp_proxy
  after : {p q : McpProxy} → Reachable p → ProxyStep p q → Reachable q

-- Every id that waits was given out.
abbrev pub IsIssued : McpProxy → Type 0
IsIssued p = (id : ℕ) → p.next_id ≤ id → lookup id p.pending ≡ none

opens-IsIssued : (p : McpProxy) → IsIssued p → IsIssued (open_request p).0
unfolding open_request
opens-IsIssued p v id le =
    ground (arith, lookup-insert p.next_id id waiting p.pending, ==_iff p.next_id id, v id)

routes-IsIssued : (p : McpProxy) (i : ℕ) (r : Response) → IsIssued p → IsIssued (route i r p)
unfolding route
routes-IsIssued p i r v id le = ground (
  arith,
  Option-cases (lookup i p.pending),
  lookup-insert i id (answered r) p.pending,
  ==_iff i id,
  v id,
)

closes-IsIssued : (p : McpProxy) (i : ℕ) → IsIssued p → IsIssued (close_request i p)
unfolding close_request
closes-IsIssued p i v id le = ground (arith, lookup-delete i id p.pending, ==_iff i id, v id)

ProxyStep-IsIssued : {p q : McpProxy} → ProxyStep p q → IsIssued p → IsIssued q
unfolding start_reader reader_ended stop lookup
ProxyStep-IsIssued (starts stdout) v = v
ProxyStep-IsIssued (ends stdout) v = v
ProxyStep-IsIssued stops v = λ id le. refl
ProxyStep-IsIssued {p} opens v = opens-IsIssued p v
ProxyStep-IsIssued {p} (routes i r) v = routes-IsIssued p i r v
ProxyStep-IsIssued {p} (closes i) v = closes-IsIssued p i v

-- In every state that the steps of callers and readers reach, in any order, an id that is still
-- to be given out has no channel.
Reachable-IsIssued : {p : McpProxy} → Reachable p → IsIssued p
unfolding lookup
Reachable-IsIssued fresh = λ id le. refl
Reachable-IsIssued (after r s) = ProxyStep-IsIssued s (Reachable-IsIssued r)

-- What `sendRPC` returns for the way in which its request ends.
abbrev pub verdict : Answer → Result Proxy.ProxyError Response
verdict unwritten = err write_failed
verdict silent = err timed_out
verdict (replied response) = ok response

module _ (id : ℕ) (p : McpProxy) (open_ : lookup id p.pending ≡ some waiting) where
  routed : Response → McpProxy
  routed r = record p { pending = insert id (answered r) p.pending }

  route-waiting : (r : Response) → route id r p ≡ routed r
  unfolding route routed
  route-waiting r = rw open_ refl

  -- A request that is open, from the write on.
  awaited_lem :
      (answer : Answer)
      → ((awaited answer id p).1 ≡ verdict answer)
        × ((awaited answer id p).0.next_id ≡ p.next_id)
        × ((other : ℕ)
            → lookup other (awaited answer id p).0.pending
              ≡ (if id == other then none else lookup other p.pending))
  unfolding close_request receive routed
  awaited_lem unwritten = (refl, refl, λ other. lookup-delete id other p.pending)
  awaited_lem silent = (rw open_ refl, refl, λ other. lookup-delete id other p.pending)
  awaited_lem (replied r) = rw (route-waiting r) (
    ground (arith, lookup-insert id id (answered r) p.pending, ==_self id),
    refl,
    λ other. ground (
      arith,
      lookup-delete id other (insert id (answered r) p.pending),
      lookup-insert id other (answered r) p.pending,
    ),
  )

-- Without a reader every request fails at once.
pub send_rpc_stopped :
    (answer : Answer) (p : McpProxy) → p.running ≡ false → send_rpc answer p ≡ (p, err not_started)
unfolding send_rpc open_request
send_rpc_stopped answer p h = rw h refl

-- The proxy with the request opened.
abbrev opened : McpProxy → McpProxy
opened p = record p { next_id = p.next_id + 1; pending = insert p.next_id waiting p.pending }

send_rpc_running :
    (answer : Answer) (p : McpProxy)
    → p.running ≡ true
    → send_rpc answer p ≡ awaited answer p.next_id (opened p)
unfolding send_rpc open_request
send_rpc_running answer p on =
    let e : open_request p ≡ (opened p, ok p.next_id) = ground arith in ap (sent answer) e

-- A lone `sendRPC`, in every state that the callers and readers reach in any order of their steps:
-- without a reader it fails and changes nothing; else it uses up one id, returns the response
-- that its own server gave, or the failure to write or the timeout, and
-- leaves every request that waits in its channel as it was and none of its own.
pub send_rpc_lem :
    (p : McpProxy) (answer : Answer)
    → Reachable p
    → ((p.running ≡ false) × (send_rpc answer p ≡ (p, err not_started)))
      ⊎ ((p.running ≡ true)
          × ((send_rpc answer p).1 ≡ verdict answer)
          × ((send_rpc answer p).0.next_id ≡ p.next_id + 1)
          × ((id : ℕ) → lookup id (send_rpc answer p).0.pending ≡ lookup id p.pending))
send_rpc_lem p answer reach = elim (Bool-cases p.running) [
  | inr off ↦ inl (off, send_rpc_stopped answer p off)
  | inl on ↦
      let l =
        awaited_lem p.next_id (opened p)
          (ground (arith, lookup-insert p.next_id p.next_id waiting p.pending, ==_self p.next_id))
          answer in
      inr (
        on,
        rw (send_rpc_running answer p on) l.0,
        rw (send_rpc_running answer p on) l.1,
        λ id. rw (send_rpc_running answer p on) (
            l.2 id
            ∙ ground (
              arith,
              lookup-insert p.next_id id waiting p.pending,
              Reachable-IsIssued reach id,
              ==_iff p.next_id id,
            )),
      )
]
