-- ===== src/SubscriptionProxy/Headers/Forwarded.antt =====
-- Which headers of a request src/subscription_proxy.rs passes on.
use kelinode_rs.Prelude.{
  true, false, Option, none, some, [], ◌∷◌, if◌then◌else◌, keep, map, is_empty, ◌≡◌, refl, ap, ◌∙◌,
  arith, Bool-cases, Option-cases, inl, inr, if_intro, Ordering-cases,
}
use kelinode_rs.Prelude.Text.{Text, text, text_eq, text_eq_iff, trim, to_lower}
use kelinode_rs.Prelude.Str.{eq_ignore_ascii_case}
use kelinode_rs.Prelude.Order.{text_ord}
use kelinode_rs.BTreeMap.{get, insert}
use kelinode_rs.BTreeMap.Laws.{Above-trans, IsSorted, get-Above, get-insert}
use kelinode_rs.BTreeMap.Extension.{get-collect, last_of}
use kelinode_rs.SubscriptionProxy.{Headers, SubscriptionProxyInboundRequest}
use kelinode_rs.SubscriptionProxy.Headers.{
  is_forwarded, is_forwarded_entry, forwarded_headers, forwarded_for, forwarded_for_key,
  append_forwarded_for, client_ip, upstream_forwarded_headers, with_host, with_client,
  is_hop_by_hop_header,
}

last_of-keep :
    (k : Text) (hs : Headers) (found : Option Text)
    → last_of k (keep is_forwarded_entry hs) found
      ≡ (if is_forwarded k then last_of k hs found else found)
last_of-keep k [] found = ground arith
last_of-keep k ((j, v) ∷ hs) found =
    ground (arith, last_of-keep k hs found, last_of-keep k hs (some v), text_ord.cmp_eq k j)

abbrev found_or : Option Text → Option Text → Option Text
found_or none found = found
found_or (some v) found = some v

last_of-sorted :
    (k : Text) (hs : Headers) (found : Option Text)
    → IsSorted hs
    → last_of k hs found ≡ found_or (get k hs) found
unfolding get
last_of-sorted k [] found s = refl
last_of-sorted k ((j, v) ∷ hs) found (a, s) = elim (Ordering-cases (text_ord.cmp k j)) [
  | inl lt ↦
      rw (lt, get)
        (last_of-sorted k hs found s
          ∙ ap (λ o. found_or o found) (get-Above k hs (Above-trans k j hs lt a)))
  | inr (inl e) ↦
      rw (e, get)
        (last_of-sorted k hs (some v) s
          ∙ ap (λ o. found_or o (some v)) (get-Above k hs (rw (text_ord.cmp_eq k j e) a)))
  | inr (inr gt) ↦ rw (gt, get) (last_of-sorted k hs found s)
]

-- Look-up among the headers that are passed on.
pub get-forwarded_headers :
    (k : Text) (hs : Headers)
    → IsSorted hs
    → get k (forwarded_headers hs) ≡ (if is_forwarded k then get k hs else none)
unfolding forwarded_headers
get-forwarded_headers k hs s =
    get-collect k (keep is_forwarded_entry hs)
    ∙ last_of-keep k hs none
    ∙ ap (λ o. if is_forwarded k then o else none) (last_of-sorted k hs none s ∙ or_none (get k hs))
  where
    or_none : (o : Option Text) → found_or o none ≡ o
    or_none none = refl
    or_none (some v) = refl

get_same : (k : Text) (v : Text) (hs : Headers) → get k (insert k v hs) ≡ some v
get_same k v hs = rw (get-insert k k v hs, text_ord.cmp_refl k) refl

get_other : (k j : Text) (v : Text) (hs : Headers) → (k ≡ j → ⊥) → get k (insert j v hs) ≡ get k hs
get_other k j v hs differ = ground (arith, get-insert k j v hs, text_ord.cmp_eq k j, differ)

abbrev pub forwarded_host : Text
forwarded_host = text "X-Forwarded-Host"

abbrev pub forwarded_proto : Text
forwarded_proto = text "X-Forwarded-Proto"

-- A name that the proxy writes no header for.
pub record IsPlainName (k : Text) : Type 0 where
  pub no_host : k ≡ forwarded_host → ⊥
  pub no_proto : k ≡ forwarded_proto → ⊥
  pub no_for : eq_ignore_ascii_case k forwarded_for ≡ false

-- The key of the addresses is one of that name.
forwarded_for_key_lem :
    (hs : Headers) → eq_ignore_ascii_case (forwarded_for_key hs) forwarded_for ≡ true
unfolding forwarded_for_key
forwarded_for_key_lem [] = unfold eq_ignore_ascii_case text_eq to_lower in refl
forwarded_for_key_lem ((key, v) ∷ hs) =
    if_intro (λ k. eq_ignore_ascii_case k forwarded_for ≡ true)
      (eq_ignore_ascii_case key forwarded_for) (λ e. e) (λ e. forwarded_for_key_lem hs)

get-append_forwarded_for :
    (k : Text) (hs : Headers) (ip : Text)
    → eq_ignore_ascii_case k forwarded_for ≡ false
    → get k (append_forwarded_for hs ip) ≡ get k hs
unfolding append_forwarded_for
get-append_forwarded_for k hs ip h =
    if_intro (λ m. get k m ≡ get k hs) (is_empty (trim ip)) (λ _. refl)
      (λ _.
        get_other k (forwarded_for_key hs) _ hs
          (λ e. cc (ap (λ x. eq_ignore_ascii_case x forwarded_for) e, forwarded_for_key_lem hs)))

-- `with_host` and `with_client` write no header of another name.
get-with_host :
    (k host : Text) (hs : Headers) → IsPlainName k → get k (with_host host hs) ≡ get k hs
get-with_host k host hs plain =
    if_intro (λ m. get k m ≡ get k hs) (is_empty (trim host)) (λ _. refl)
      (λ _. get_other k forwarded_host (trim host) hs plain.no_host)

get-with_client :
    (k : Text) (ip : Option Text) (hs : Headers)
    → IsPlainName k
    → get k (with_client ip hs) ≡ get k hs
get-with_client k none hs plain = refl
get-with_client k (some ip) hs plain = get-append_forwarded_for k hs ip plain.no_for

get-upstream_plain :
    (k : Text) (request : SubscriptionProxyInboundRequest)
    → IsPlainName k
    → get k (upstream_forwarded_headers request) ≡ get k (forwarded_headers request.headers)
unfolding upstream_forwarded_headers
get-upstream_plain k request plain =
    let hosted = with_host request.host (forwarded_headers request.headers) in
    get-with_client k (client_ip request.remote_addr) (insert forwarded_proto (text "https") hosted)
      plain
    ∙ get_other k forwarded_proto (text "https") hosted plain.no_proto
    ∙ get-with_host k request.host (forwarded_headers request.headers) plain

-- No name that the proxy writes is one that it does not pass on.
forwarded_names : (k : Text) → eq_ignore_ascii_case k forwarded_for ≡ true → is_forwarded k ≡ true
unfolding is_forwarded is_hop_by_hop_header eq_ignore_ascii_case text_eq to_lower
forwarded_names k h = rw ((text_eq_iff (map to_lower k) (map to_lower forwarded_for)).0 h) refl

forwarded_host-is_forwarded : is_forwarded forwarded_host ≡ true
unfolding is_forwarded is_hop_by_hop_header eq_ignore_ascii_case text_eq to_lower
forwarded_host-is_forwarded = refl

forwarded_proto-is_forwarded : is_forwarded forwarded_proto ≡ true
unfolding is_forwarded is_hop_by_hop_header eq_ignore_ascii_case text_eq to_lower
forwarded_proto-is_forwarded = refl

pub unforwarded-IsPlainName : (k : Text) → is_forwarded k ≡ false → IsPlainName k
unforwarded-IsPlainName k h = record {
  no_host = λ e. cc (ap is_forwarded e, forwarded_host-is_forwarded);
  no_proto = λ e. cc (ap is_forwarded e, forwarded_proto-is_forwarded);
  no_for = elim (Bool-cases (eq_ignore_ascii_case k forwarded_for)) [
    | inl same ↦ cc (forwarded_names k same)
    | inr other ↦ other
  ];
}

proto-ne-for : eq_ignore_ascii_case forwarded_proto forwarded_for ≡ false
unfolding eq_ignore_ascii_case text_eq to_lower
proto-ne-for = refl

-- The headers for the upstream.
module _ (request : SubscriptionProxyInboundRequest) (sorted : IsSorted request.headers) where
  pub upstream_unforwarded :
      (k : Text) → is_forwarded k ≡ false → get k (upstream_forwarded_headers request) ≡ none
  upstream_unforwarded k h =
      get-upstream_plain k request (unforwarded-IsPlainName k h)
      ∙ get-forwarded_headers k request.headers sorted
      ∙ ap (λ b. if b then get k request.headers else none) h

  pub upstream_kept :
      (k : Text)
      → is_forwarded k ≡ true
      → IsPlainName k
      → get k (upstream_forwarded_headers request) ≡ get k request.headers
  upstream_kept k h plain =
      get-upstream_plain k request plain
      ∙ get-forwarded_headers k request.headers sorted
      ∙ ap (λ b. if b then get k request.headers else none) h

pub upstream_proto :
    (request : SubscriptionProxyInboundRequest)
    → get forwarded_proto (upstream_forwarded_headers request) ≡ some (text "https")
unfolding upstream_forwarded_headers
upstream_proto request = elim (Option-cases (client_ip request.remote_addr)) [
  | inl e ↦ rw e (get_same forwarded_proto (text "https") _)
  | inr (ip, e) ↦ rw e (
      get-append_forwarded_for forwarded_proto
        (insert forwarded_proto (text "https")
          (with_host request.host (forwarded_headers request.headers)))
        ip proto-ne-for
      ∙ get_same forwarded_proto (text "https") _)
]
