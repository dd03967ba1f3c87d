-- ===== src/Degrade/Health.antt =====
-- discovery/downgrade.go: `checkHealth`, `listSame` and the merge of the nodes to check. What the
-- network answers is a parameter.
use xdiscovery.Prelude.{
  text_eq, text_lt, format_int, select, ltb_ℤ, Map, suc, Bool, true, false, not, ◌&&◌, ◌||◌, Option,
  none, some, List, [], ◌∷◌, ◌++◌, if◌then◌else◌, ℤ, pos, negsuc, length, Text, codes, is_empty,
  ◌==◌,
}
use xdiscovery.Service.{Service, HealthCheck, get_self_protection_id}

-- The answer to an HTTP request: no reply, or a status, the value of the header
-- "X-Autumn-Mesh-HealthChecked-Service" (empty if there is none), and whether the body could be
-- read.
pub data HttpReply : Type 0 where
  no_reply : HttpReply
  replied : ℤ → Text → Bool → HttpReply

-- The outside world: `net.DialTimeout` with `Close`, `http.NewRequest`, and `http.Client.Do`.
pub record Network : Type 0 where
  pub tcp_check : Text → ℤ → Bool
  pub new_request : Text → Text → Bool
  pub http_do : Text → Text → Option (Map (List Text)) → Text → ℤ → HttpReply

unfoldable pub format_port : ℤ → Text
unfolding format_int
format_port (pos n) = format_int n
format_port (negsuc n) = codes "-" ++ format_int (suc n)

-- `e.Address + ":" + port`
unfoldable pub node_address : Service → Text
unfolding format_port
node_address e = e.address ++ codes ":" ++ format_port e.port

unfoldable pub check_reply : Service → HttpReply → Bool
unfolding text_eq
check_reply e no_reply = false
check_reply e (replied status_code mesh_service body_read) =
    body_read
    && not (ltb_ℤ status_code (pos 200))
    && not (ltb_ℤ (pos 399) status_code)
    && (is_empty mesh_service || text_eq mesh_service e.name)

unfoldable pub http_check : Network → Service → HealthCheck → ℤ → Bool
unfolding check_reply
http_check net e hc timeout =
    let method = if is_empty hc.method then codes "GET" else hc.method in
    net.new_request method hc.http
    && check_reply e (net.http_do method hc.http hc.header e.name timeout)

-- `checkHealth(e, defaultTimeout) == nil`
unfoldable pub check_health : Network → Service → ℤ → Bool
unfolding http_check node_address
check_health net e default_timeout = elim e.health_check [
  | none ↦ net.tcp_check (node_address e) default_timeout
  | some hc ↦
      let timeout = if ltb_ℤ (pos 0) hc.timeout then hc.timeout else default_timeout in
      if is_empty hc.http
      then (if is_empty hc.tcp
          then net.tcp_check (node_address e) timeout
          else net.tcp_check hc.tcp timeout)
      else http_check net e hc timeout
]

-- `used[id]`
unfoldable pub is_used : Text → List Text → Bool
unfolding text_eq
is_used id [] = false
is_used id (u ∷ used) = text_eq u id || is_used id used

-- The body of the two loops that gather the nodes: the ids used, and the nodes so far.
unfoldable pub add_endpoint : List Text × List Service → Service → List Text × List Service
unfolding is_used
add_endpoint (used, endpoints) e =
    if is_used (get_self_protection_id e) used
    then (used, endpoints)
    else (get_self_protection_id e ∷ used, endpoints ++ e ∷ [])

unfoldable pub add_all : List Service → List Text × List Service → List Text × List Service
unfolding add_endpoint
add_all [] found = found
add_all (e ∷ es) found = add_all es (add_endpoint found e)

-- The nodes to check: the registry's, then those of the history that are not among them.
unfoldable pub gather : List Service → List Service → List Service
unfolding add_all
gather latest history = (add_all history (add_all latest ([], []))).1

-- The nodes that pass their check, in order.
unfoldable pub healthy : Network → ℤ → List Service → List Service
unfolding check_health
healthy net ping_timeout endpoints = select (λ e. check_health net e ping_timeout) endpoints

-- `sort.Slice` by id. Equal ids stay in order; `listSame` reads the ids only.
unfoldable pub insert_by_id : Service → List Service → List Service
unfolding text_lt
insert_by_id x [] = x ∷ []
insert_by_id x (y ∷ ys) = if text_lt y.id x.id then y ∷ insert_by_id x ys else x ∷ y ∷ ys

unfoldable pub sort_by_id : List Service → List Service
unfolding insert_by_id
sort_by_id [] = []
sort_by_id (x ∷ xs) = insert_by_id x (sort_by_id xs)

-- The loop that compares the sorted lists, of one length.
unfoldable pub same_ids : List Service → List Service → Bool
unfolding text_eq
same_ids [] bs = true
same_ids (a ∷ as_) [] = false
same_ids (a ∷ as_) (b ∷ bs) = text_eq a.id b.id && same_ids as_ bs

unfoldable pub list_same : List Service → List Service → Bool
unfolding sort_by_id same_ids
list_same a b = length a == length b && same_ids (sort_by_id a) (sort_by_id b)
