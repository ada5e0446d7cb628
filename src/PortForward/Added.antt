-- ===== src/PortForward/Added.antt =====
-- What a command of src/port_forward.rs adds is deleted by a later run.
use kelinode_rs.Prelude.{true, List, [], ◌∷◌, ◌++◌, map, All, ◌≡◌, ap, ◌∙◌, arith}
use mathlib.Core.Path.{subst}
use mathlib.Core.List.{Memᴰ}
use kelinode_rs.Prelude.Text.{Text, text, text_eq, text_eq_iff, trim, join, lines}
use kelinode_rs.Prelude.Decimal.{decimal}
use kelinode_rs.PortForward.{PortForwardRule, PortForwardCommand}
use kelinode_rs.PortForward.Spec.{
  trim_quotes, names_rule, specs_where, parse_iptables_spec, is_port_forward_rule_spec_with_comment,
}
use kelinode_rs.PortForward.Fields.{IsPlain, parse_iptables_spec-join}
use kelinode_rs.PortForward.Commands.{
  command, deletion, add_rule, delete_port_forward_commands_with_comment,
}
use kelinode_rs.Prelude.Members.{kept_in, mapped_in}

names_rule_later :
    (comment field : Text) (fields : List Text)
    → names_rule comment fields ≡ true
    → names_rule comment (field ∷ fields) ≡ true
unfolding names_rule
names_rule_later comment field [] h = cc
names_rule_later comment field (next ∷ fields) h = ground (arith, h)

names_rule-append :
    (comment : Text) (xs ys : List Text)
    → names_rule comment ys ≡ true
    → names_rule comment (xs ++ ys) ≡ true
names_rule-append comment [] ys h = h
names_rule-append comment (x ∷ xs) ys h =
    names_rule_later comment x (xs ++ ys) (names_rule-append comment xs ys h)

names_comment :
    (comment a b : Text) (fields : List Text)
    → trim_quotes comment ≡ comment
    → names_rule comment (a ∷ b ∷ text "--comment" ∷ comment ∷ fields) ≡ true
unfolding names_rule
names_comment comment a b fields e =
    names_rule_later comment a (b ∷ text "--comment" ∷ comment ∷ fields) (
      names_rule_later comment b (text "--comment" ∷ comment ∷ fields) (
        ground (
          arith,
          text_eq_iff (trim_quotes comment) comment,
          text_eq_iff (text "--comment") (text "--comment"),
        )))

-- The fields of a command that adds a rule, from `-A` on, as a tool shows them: it may put more
-- matches after the protocol.
abbrev pub shown : List Text → PortForwardCommand → List Text
shown matches c = with_matches c.args
  where
    with_matches : List Text → List Text
    with_matches (_ ∷ _ ∷ append ∷ chain ∷ flag ∷ protocol ∷ fields) =
        append ∷ chain ∷ flag ∷ protocol ∷ (matches ++ fields)
    with_matches _ = []

shown-IsManaged :
    (tool : Text) (rule : PortForwardRule) (matches : List Text)
    → trim_quotes rule.comment ≡ rule.comment
    → is_port_forward_rule_spec_with_comment (shown matches (add_rule tool rule)) rule.comment
      ≡ true
unfolding add_rule is_port_forward_rule_spec_with_comment text_eq
shown-IsManaged tool rule matches h =
    names_rule_later rule.comment (text "-p") (rule.protocol ∷ _) (
      names_rule_later rule.comment rule.protocol (matches ++ _) (
        names_rule-append rule.comment matches _ (
          names_rule-append rule.comment rule.matcher.args _ (
            names_comment rule.comment (text "-m") (text "comment")
              (text "-j" ∷ text "REDIRECT" ∷ text "--to-ports" ∷ decimal rule.target_port ∷ [])
              h))))

-- A rule that a command has added is deleted by a later run: if a line of what the tool prints then
-- is the rule's fields joined by blanks, with more matches after the protocol or none, and blanks at
-- its ends aside, then a command that deletes just these fields is among those that delete the rules
-- under the rule's comment. The fields are not empty and have no quotes, blanks or tabs.
pub add_rule-IsDeleted :
    (tool : Text) (rule : PortForwardRule) (matches : List Text) (output line : Text)
    → trim_quotes rule.comment ≡ rule.comment
    → All IsPlain (shown matches (add_rule tool rule))
    → Memᴰ line (lines output)
    → trim line ≡ join (text " ") (shown matches (add_rule tool rule))
    → Memᴰ
        (command tool (text "-t" ∷ text "nat" ∷ deletion (shown matches (add_rule tool rule))))
        (delete_port_forward_commands_with_comment tool output rule.comment)
unfolding delete_port_forward_commands_with_comment specs_where
add_rule-IsDeleted tool rule matches output line unquoted plain listed same =
    let fields = shown matches (add_rule tool rule) in
    let parsed : parse_iptables_spec (trim line) ≡ fields =
      ap parse_iptables_spec same ∙ parse_iptables_spec-join fields plain in
    let among = mapped_in (λ line. parse_iptables_spec (trim line)) (lines output) line listed in
    mapped_in _ _ fields (
      kept_in _ _ fields
        (subst (λ x. Memᴰ x (map (λ line. parse_iptables_spec (trim line)) (lines output))) parsed
          among)
        (shown-IsManaged tool rule matches unquoted))
