-- ===== src/SubscriptionProxy/Response/Framing.antt =====
-- How a reply that src/subscription_proxy.rs writes is read: where its head ends, and its lines.
use kelinode_rs.Prelude.{
  ℕ, suc, ◌+◌, false, Option, none, some, List, [], ◌∷◌, ◌++◌, append_assoc, is_empty, length,
  length-append, All, ◌≡◌, refl, ap, ◌∙◌, arith,
}
use kelinode_rs.Prelude.Text.{join}
use kelinode_rs.Prelude.Str.{split_crlf}
use kelinode_rs.Prelude.Utf8.{Bytes}
use kelinode_rs.SubscriptionProxy.Http.{crlf, blank_line, next_place, http_header_end}
use kelinode_rs.SubscriptionProxy.Response.{is_break}

-- A line with no break.
abbrev pub IsLine : Bytes → Type 0
IsLine s = All (λ b. is_break b ≡ false) s

abbrev pub IsHeadLine : Bytes → Type 0
IsHeadLine s = (is_empty s ≡ false) × IsLine s

abbrev shift : ℕ → Option ℕ → Option ℕ
shift n none = none
shift n (some k) = some (n + k)

end_of_plain :
    (b : ℕ) (s : Bytes)
    → is_break b ≡ false
    → http_header_end (b ∷ s) ≡ next_place (http_header_end s)
unfolding http_header_end
end_of_plain b s h = ground arith

end_of_line :
    (s rest : Bytes)
    → IsLine s
    → http_header_end (s ++ rest) ≡ shift (length s) (http_header_end rest)
end_of_line [] rest h = ground (arith)
end_of_line (b ∷ s) rest (h, hs) =
    end_of_plain b (s ++ rest) h
    ∙ ap next_place (end_of_line s rest hs)
    ∙ next_shift (length s) (http_header_end rest)
  where
    next_shift : (n : ℕ) (o : Option ℕ) → next_place (shift n o) ≡ shift (suc n) o
    next_shift n none = refl
    next_shift n (some k) = ap some (omega arith)

-- A break before a line that is not empty does not end the head.
end_of_break :
    (b : ℕ) (s : Bytes)
    → is_break b ≡ false
    → http_header_end (crlf ++ (b ∷ s)) ≡ shift 2 (http_header_end (b ∷ s))
unfolding http_header_end
end_of_break b s h = ground arith

end_of_joined :
    (t : Bytes) (lines : List Bytes) (rest : Bytes)
    → IsHeadLine t
    → http_header_end (crlf ++ (join crlf (t ∷ lines) ++ rest))
      ≡ shift 2 (http_header_end (join crlf (t ∷ lines) ++ rest))
unfolding join
end_of_joined [] lines rest (h, _) = cc
end_of_joined (b ∷ t) [] rest (_, (h, _)) = end_of_break b (t ++ rest) h
end_of_joined (b ∷ t) (u ∷ lines) rest (_, (h, _)) =
    end_of_break b ((t ++ (crlf ++ join crlf (u ∷ lines))) ++ rest) h

end_of_blank : (rest : Bytes) → http_header_end (blank_line ++ rest) ≡ some 0
unfolding http_header_end
end_of_blank rest = refl

-- The head of some lines ends where they end.
pub http_header_end-join :
    (s : Bytes) (lines : List Bytes) (body : Bytes)
    → All IsHeadLine (s ∷ lines)
    → http_header_end (join crlf (s ∷ lines) ++ (blank_line ++ body))
      ≡ some (length (join crlf (s ∷ lines)))
unfolding join
http_header_end-join s [] body (h, _) =
    end_of_line s (blank_line ++ body) h.1
    ∙ ap (shift (length s)) (end_of_blank body)
    ∙ ap some (omega arith)
http_header_end-join s (t ∷ lines) body (h, (k, ks)) =
    let rest = join crlf (t ∷ lines) in
    let after = blank_line ++ body in
    ap http_header_end (append_assoc s (crlf ++ rest) after)
    ∙ end_of_line s (crlf ++ (rest ++ after)) h.1
    ∙ ap (shift (length s))
        (end_of_joined t lines after k ∙ ap (shift 2) (http_header_end-join t lines body (k, ks)))
    ∙ ap some (omega (arith, length-append s (crlf ++ rest)))

split_line : (s : Bytes) → IsLine s → split_crlf s ≡ s ∷ []
unfolding split_crlf
split_line [] h = refl
split_line (b ∷ []) h = refl
split_line (b ∷ c ∷ s) (h, hs) = ground (arith, split_line (c ∷ s) hs)

split_at_break : (s t : Bytes) → IsLine s → split_crlf (s ++ (crlf ++ t)) ≡ s ∷ split_crlf t
unfolding split_crlf
split_at_break [] t h = refl
split_at_break (b ∷ []) t h = ground arith
split_at_break (b ∷ c ∷ s) t (h, hs) = ground (arith, split_at_break (c ∷ s) t hs)

-- The lines of a head are those that it was joined from.
pub split_crlf-join :
    (s : Bytes) (lines : List Bytes)
    → All IsHeadLine (s ∷ lines)
    → split_crlf (join crlf (s ∷ lines)) ≡ s ∷ lines
unfolding join
split_crlf-join s [] (h, _) = split_line s h.1
split_crlf-join s (t ∷ lines) (h, hs) =
    split_at_break s (join crlf (t ∷ lines)) h.1 ∙ ap (λ ls. s ∷ ls) (split_crlf-join t lines hs)
