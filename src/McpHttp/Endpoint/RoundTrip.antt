-- ===== src/McpHttp/Endpoint/RoundTrip.antt =====
-- The session id that an SSE client is given is read back from its messages
-- (crates/rust-mcp-transport/src/utils.rs, crates/rust-mcp-sdk/src/mcp_http/http_utils.rs).
use rust_mcp_sdk.Prelude.{
  ℕ, ◌≡◌, ◌≢◌, refl, ap, ◌∙◌, true, false, Option, none, some, List, [], ◌∷◌, ◌++◌, All, arith,
  Bool-cases, inl, inr, ◌==◌, if◌then◌else◌, is_empty, All-append, all, not,
}
use rust_mcp_sdk.Prelude.Text.{Text, codes, text_beq, text_beq_iff}
use rust_mcp_sdk.Prelude.Split.{
  split, split_once, split_once_first, split_once_whole, split-append, split_none,
}
use rust_mcp_sdk.McpHttp.Headers.{split_pair, find_param, query_param}
use rust_mcp_sdk.McpHttp.Endpoint.{endpoint_with_session_id}

-- No `?` and no `#`; no `#`; and neither `#` nor `&`.
abbrev pub IsPath : Text → Type 0
IsPath = All (λ c. (c ≢ b'?') × (c ≢ b'#'))

abbrev pub IsQuery : Text → Type 0
IsQuery = All (λ c. c ≢ b'#')

abbrev pub IsId : Text → Type 0
IsId = All (λ c. (c ≢ b'#') × (c ≢ b'&'))

abbrev front_of : Text → Option (Text × Text) → Text
front_of url none = url
front_of url (some (front, fragment)) = front

abbrev behind : Option (Text × Text) → Option Text
behind none = none
behind (some (front, query)) = some query

-- The query of a URL: behind the first `?`, and in front of the fragment.
abbrev pub query_of : Text → Option Text
query_of url = behind (split_once b'?' (front_of url (split_once b'#' url)))

-- An endpoint is a path, with a query or without one.
abbrev pub endpoint_of : Text → Option Text → Text
endpoint_of path none = path
endpoint_of path (some query) = path ++ b'?' ∷ query

abbrev pub key : Text
key = codes "sessionId"

-- The query has no fragment behind it and no such parameter already.
abbrev pub HasNoKey : Option Text → Type 0
HasNoKey none = Unit
HasNoKey (some query) =
    IsQuery query × All (λ pair. (split_pair pair).0 ≢ key) (split (codes "&") query)

find_param-append :
    (pairs : List Text) (pair : Text)
    → All (λ p. (split_pair p).0 ≢ key) pairs
    → (split_pair pair).0 ≡ key
    → find_param key (pairs ++ pair ∷ []) ≡ some (split_pair pair).1
find_param-append [] pair others same = rw same (rw ((text_beq_iff key key).1 refl) refl)
find_param-append (p ∷ pairs) pair others same = elim (Bool-cases (text_beq (split_pair p).0 key)) [
  | inl e ↦ absurd (others.0 ((text_beq_iff (split_pair p).0 key).0 e))
  | inr e ↦ rw e (find_param-append pairs pair others.1 same)
]

abbrev parameter : Text → Text
parameter id = codes "sessionId=" ++ id

All-IsQuery : (s : Text) → IsPath s → IsQuery s
All-IsQuery [] h = tt
All-IsQuery (c ∷ s) h = (h.0.1, All-IsQuery s h.1)

All-NoMark : (s : Text) → IsPath s → All (λ c. c ≢ b'?') s
All-NoMark [] h = tt
All-NoMark (c ∷ s) h = (h.0.0, All-NoMark s h.1)

Id-IsQuery : (s : Text) → IsId s → IsQuery s
Id-IsQuery [] h = tt
Id-IsQuery (c ∷ s) h = (h.0.0, Id-IsQuery s h.1)

Id-NoAnd : (s : Text) → IsId s → All (λ c. c ≢ b'&') s
Id-NoAnd [] h = tt
Id-NoAnd (c ∷ s) h = (h.0.1, Id-NoAnd s h.1)

absent_of_test : (a : ℕ) (s : Text) → all (λ c. not (c == a)) s ≡ true → All (λ c. c ≢ a) s
absent_of_test a [] h = tt
absent_of_test a (c ∷ s) h = (λ e. ground (arith, e, h), absent_of_test a s (ground (arith, h)))

split-parameter : (id : Text) → IsId id → split (codes "&") (parameter id) ≡ parameter id ∷ []
split-parameter id h = split_none b'&' (parameter id) (
    All-append _ (codes "sessionId=") id (absent_of_test b'&' (codes "sessionId=") refl)
      (Id-NoAnd id h))

-- What is asked of the query that ends in the parameter.
find-parameter : (id : Text) → IsId id → find_param key (split (codes "&") (parameter id)) ≡ some id
unfolding text_beq
find-parameter id h = rw (split-parameter id h) refl

find-parameter_behind :
    (query id : Text)
    → IsId id
    → All (λ pair. (split_pair pair).0 ≢ key) (split (codes "&") query)
    → find_param key (split (codes "&") (query ++ b'&' ∷ parameter id)) ≡ some id
find-parameter_behind query id h others = rw (split-append b'&' query (parameter id)) (
    rw (split-parameter id h)
      (find_param-append (split (codes "&") query) (parameter id) others refl))

-- The query of what `endpoint_with_session_id` makes.
query_of-path :
    (path query : Text) → IsPath path → IsQuery query → query_of (path ++ b'?' ∷ query) ≡ some query
query_of-path path query h g =
    let no_fragment = All-append _ path (b'?' ∷ query) (All-IsQuery path h) (λ e. cc, g) in
    rw (split_once_whole b'#' (path ++ b'?' ∷ query) no_fragment)
      (rw (split_once_first b'?' path query (All-NoMark path h)) refl)

-- Of an empty endpoint, the path is a slash.
abbrev rooted : Text → Text
rooted path = if is_empty path then codes "/" else path

endpoint-path :
    (path id : Text)
    → IsPath path
    → endpoint_with_session_id path id ≡ rooted path ++ b'?' ∷ parameter id
unfolding endpoint_with_session_id split_once
endpoint-path [] id h = refl
endpoint-path (c ∷ path) id h =
    rw (split_once_whole b'#' (c ∷ path) (All-IsQuery (c ∷ path) h))
      (rw (split_once_whole b'?' (c ∷ path) (All-NoMark (c ∷ path) h)) refl)

-- The parameter behind the query.
abbrev extended : Text → Text → Text
extended query id = if is_empty query then parameter id else query ++ b'&' ∷ parameter id

is_empty-behind : (s t : Text) (c : ℕ) → is_empty (s ++ c ∷ t) ≡ false
is_empty-behind [] t c = refl
is_empty-behind (d ∷ s) t c = refl

endpoint-query :
    (path query id : Text)
    → IsPath path
    → IsQuery query
    → endpoint_with_session_id (path ++ b'?' ∷ query) id ≡ path ++ b'?' ∷ extended query id
unfolding endpoint_with_session_id
endpoint-query path query id h g =
    let no_fragment = All-append _ path (b'?' ∷ query) (All-IsQuery path h) (λ e. cc, g) in
    rw (is_empty-behind path query b'?') (
      rw (split_once_whole b'#' (path ++ b'?' ∷ query) no_fragment) (
        rw (split_once_first b'?' path query (All-NoMark path h))
          (elim (Bool-cases (is_empty query)) [ inl e ↦ rw e refl | inr e ↦ rw e refl ])))

parameter-IsQuery : (id : Text) → IsId id → IsQuery (parameter id)
parameter-IsQuery id h =
    All-append _ (codes "sessionId=") id (absent_of_test b'#' (codes "sessionId=") refl)
      (Id-IsQuery id h)

query_param-query_of :
    (url query id : Text)
    → query_of url ≡ some query
    → find_param key (split (codes "&") query) ≡ some id
    → query_param (query_of url) key ≡ some id
unfolding query_param
query_param-query_of url query id has found = rw has found

slash-IsPath : IsPath (codes "/")
slash-IsPath = ((λ e. cc, λ e. cc), tt)

rooted-IsPath : (path : Text) → IsPath path → IsPath (rooted path)
rooted-IsPath path h = elim (Bool-cases (is_empty path)) [
  | inl e ↦ rw e slash-IsPath
  | inr e ↦ rw e h
]

query_param-endpoint-path :
    (path id : Text)
    → IsPath path
    → IsId id
    → query_param (query_of (endpoint_with_session_id path id)) key ≡ some id
query_param-endpoint-path path id h is_id =
    query_param-query_of (endpoint_with_session_id path id) (parameter id) id
      (ap query_of (endpoint-path path id h)
        ∙ query_of-path (rooted path) (parameter id) (rooted-IsPath path h)
            (parameter-IsQuery id is_id))
      (find-parameter id is_id)

extended-IsQuery : (query id : Text) → IsQuery query → IsId id → IsQuery (extended query id)
extended-IsQuery query id h is_id = elim (Bool-cases (is_empty query)) [
  | inl e ↦ rw e (parameter-IsQuery id is_id)
  | inr e ↦ rw e (All-append _ query (b'&' ∷ parameter id) h (λ e. cc, parameter-IsQuery id is_id))
]

find-extended :
    (query id : Text)
    → IsId id
    → All (λ pair. (split_pair pair).0 ≢ key) (split (codes "&") query)
    → find_param key (split (codes "&") (extended query id)) ≡ some id
find-extended [] id is_id others = find-parameter id is_id
find-extended (c ∷ query) id is_id others = find-parameter_behind (c ∷ query) id is_id others

query_param-endpoint-query :
    (path query id : Text)
    → IsPath path
    → IsQuery query
    → All (λ pair. (split_pair pair).0 ≢ key) (split (codes "&") query)
    → IsId id
    → query_param (query_of (endpoint_with_session_id (path ++ b'?' ∷ query) id)) key ≡ some id
query_param-endpoint-query path query id h is_query others is_id =
    query_param-query_of (endpoint_with_session_id (path ++ b'?' ∷ query) id) (extended query id) id
      (ap query_of (endpoint-query path query id h is_query)
        ∙ query_of-path path (extended query id) h (extended-IsQuery query id is_query is_id))
      (find-extended query id is_id others)

-- The endpoint that an SSE client is given has a query in which the session id is found, also where
-- the endpoint or its query is empty: for an endpoint that has no fragment and no such parameter
-- already, and an id without `#` and `&`.
pub query_param-endpoint_with_session_id :
    (path : Text) (query : Option Text) (id : Text)
    → IsPath path
    → HasNoKey query
    → IsId id
    → query_param (query_of (endpoint_with_session_id (endpoint_of path query) id)) key ≡ some id
query_param-endpoint_with_session_id path none id h others is_id =
    query_param-endpoint-path path id h is_id
query_param-endpoint_with_session_id path (some query) id h others is_id =
    query_param-endpoint-query path query id h others.0 others.1 is_id
