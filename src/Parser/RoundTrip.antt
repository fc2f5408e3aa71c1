-- ===== src/Parser/RoundTrip.antt =====
-- src/parser/parser.cpp: an expression that is printed is read back.
use aithon.Prelude.{ℕ, ◌≡◌, refl, ap, ◌∙◌, true, false, none, some, ◌∷◌, Bytes}
use aithon.Ast.{
  neg, not_op, Expr, Exprs, Pairs, NamedArgs, integer_literal, float_literal, string_literal,
  bool_literal, none_literal, identifier, binary_op, unary_op, call_expr, index_expr, member_expr,
  list_expr, dict_expr, initializer_expr, some_expr, none_expr, no_exprs, and_expr, no_pairs,
  and_pair, no_args, and_arg,
}
use aithon.Parser.{Tokens, ok, and_then, match_any, check, consume, skip_newlines}
use aithon.Parser.Atoms.{Atom, Atom-ReadsBack, literal_reads, binary-Atom}
use aithon.Parser.Expr.{
  parse_expression, parse_args, parse_call, parse_elements, parse_pairs, parse_named_args,
  postfix_loop, postfix_step, primary_step, parse_list_literal, parse_dict_literal,
}
use aithon.Parser.Grammar.{call, list, dict, has_named_args, name_of}
use aithon.Parser.Print.{
  mark, print, print_args, print_pairs, print_named, Parsable, AllParsable, PairsParsable,
  NamedParsable, Starts, print-Starts,
}
use aithon.Parser.Reads.{Reads, reads_suc, reads_same, reads_bind, Stops}
use aithon.Parser.Sequences.{
  AllReadBack, PairsReadBack, NamedReadBack, elements_reads, pairs_reads, named_reads,
}
use aithon.Token as Token
use aithon.Token.{Token, SourceLocation}
use aithon.Parser.Postfixes.{
  closing, unary-Atom, postfix-Atom, loop_ends, member-Atom, index-Atom, name_of-false,
  args_not_named, all_args_read,
}

module _ {D : Type 0} (at : SourceLocation) where
  call-Atom :
      (e : Expr D) (args : Exprs D)
      → Parsable e
      → AllParsable args
      → Atom at e
      → AllReadBack at args
      → Atom at (call_expr e args)
  unfolding print parse_expression match_any consume and_then
  call-Atom e args p ps a rs ts =
      let us = print_args at args (closing at (closing at ts)) in
      let mid = mark at Token.lparen ∷ us in
      let behind = λ (f : ℕ) (args' : Exprs D) (rest : Tokens D).
        and_then (consume Token.rparen rest) λ _ rest'. postfix_loop f (call_expr e args') rest' in
      postfix-Atom at e (call_expr e args) mid ts p a (
        reads_suc _ (λ f vs. postfix_step f e (some (call, mark at Token.lparen, us)) vs) mid mid
          (call_expr e args) (closing at ts) (λ f. refl)
          (reads_suc _ (λ f vs. parse_call f e none vs) mid us (call_expr e args) (closing at ts)
            (λ f.
              ap (λ o. parse_call f e o us)
                (ap (name_of e) (args_not_named at args (closing at ts) ps) ∙ name_of-false at e))
            (reads_suc _ (λ f vs. and_then (parse_args f (check Token.rparen vs) vs) (behind f)) us
              us (call_expr e args) (closing at ts) (λ f. refl)
              (reads_bind _ behind us (closing at (closing at ts)) args (call_expr e args)
                (closing at ts) (all_args_read at args ps rs (closing at ts))
                (reads_same _ (λ f. postfix_loop f (call_expr e args)) (closing at (closing at ts))
                  (closing at ts) (call_expr e args) (closing at ts) (λ f. refl)
                  (loop_ends at (call_expr e args) ts))))))

  initializer-Atom :
      (name : Bytes) (args : NamedArgs D)
      → NamedParsable args
      → NamedReadBack at args
      → Atom at (initializer_expr name args)
  unfolding print parse_expression match_any consume and_then Parsable has_named_args
  initializer-Atom name args p rs ts =
      let us = print_named at args (closing at (closing at ts)) in
      let mid = mark at Token.lparen ∷ us in
      let e = initializer_expr name args in
      let behind = λ (f : ℕ) (args' : NamedArgs D) (rest : Tokens D).
        and_then (consume Token.rparen rest) λ _ rest'. ok (initializer_expr name args') rest' in
      postfix-Atom at (identifier name) e mid ts tt (λ vs. literal_reads at _ _ vs (λ f. refl))
        (reads_suc _
          (λ f vs. postfix_step f (identifier name) (some (call, mark at Token.lparen, us)) vs) mid
          mid e (closing at ts) (λ f. refl)
          (reads_suc _ (λ f vs. parse_call f (identifier name) (some name) vs) mid us e
            (closing at ts)
            (λ f.
              ap (λ o. parse_call f (identifier name) (name_of {D = D} (identifier name) o) us)
                (args_named args (closing at ts) p))
            (reads_suc _ (λ f vs. and_then (parse_named_args f vs) (behind f)) us us e
              (closing at ts) (λ f. refl)
              (reads_bind _ behind us (closing at (closing at ts)) args e (closing at ts)
                (named_reads at args p rs (closing at ts))
                (record { fuel = 0; reads = λ f b. refl })))))
    where
      args_named :
          (args : NamedArgs D) (ts : Tokens D)
          → NamedParsable args
          → has_named_args (print_named at args (closing at ts)) ≡ true
      args_named no_args ts p = absurd p
      args_named (and_arg name e no_args) ts p = refl
      args_named (and_arg name e (and_arg name' e' args)) ts p = refl

  -- What elements begin with.
  elements-Starts :
      (e : Expr D) (es : Exprs D) (ts : Tokens D)
      → Parsable e
      → Starts (print_args at (and_expr e es) ts)
  unfolding print
  elements-Starts e no_exprs ts p = print-Starts at e ts p
  elements-Starts e (and_expr e' es) ts p = print-Starts at e _ p

  pairs-Starts :
      (k v : Expr D) (ps : Pairs D) (ts : Tokens D)
      → Parsable k
      → Starts (print_pairs at (and_pair k v ps) ts)
  unfolding print
  pairs-Starts k v no_pairs ts p = print-Starts at k _ p
  pairs-Starts k v (and_pair k' v' ps) ts p = print-Starts at k _ p

  all_elements_read :
      (es : Exprs D)
      → AllParsable es
      → AllReadBack at es
      → (ts : Tokens D)
      → Reads
          (λ f us. parse_elements f (check Token.rbracket (skip_newlines us)) (skip_newlines us))
          (print_args at es (mark at Token.rbracket ∷ ts))
          es
          (mark at Token.rbracket ∷ ts)
  unfolding print parse_expression check skip_newlines Parsable
  all_elements_read no_exprs p r ts =
      let us = mark at Token.rbracket ∷ ts in
      reads_suc _ (λ f vs. ok no_exprs vs) us us no_exprs us (λ f. refl)
        (record { fuel = 0; reads = λ f b. refl })
  all_elements_read (and_expr e es) (p, ps) r ts =
      let us = print_args at (and_expr e es) (mark at Token.rbracket ∷ ts) in
      let s = elements-Starts e es (mark at Token.rbracket ∷ ts) p in
      reads_same _ (λ f. parse_elements f false) us us (and_expr e es) (mark at Token.rbracket ∷ ts)
        (λ f. rw (s.no_newline, s.no_rbracket) refl) (elements_reads at e es (p, ps) r ts)

  list-Atom : (es : Exprs D) → AllParsable es → AllReadBack at es → Atom at (list_expr es)
  unfolding print parse_expression match_any consume and_then skip_newlines
  list-Atom es p r ts =
      let us = print_args at es (mark at Token.rbracket ∷ ts) in
      let vs = mark at Token.lbracket ∷ us in
      let behind = λ (f : ℕ) (es' : Exprs D) (rest : Tokens D).
        and_then (consume Token.rbracket (skip_newlines rest))
          λ _ rest'. ok (list_expr es') rest' in
      reads_suc _ (λ f ws. primary_step f (some (list, mark at Token.lbracket, us)) ws) vs vs
        (list_expr es) ts (λ f. refl)
        (reads_suc _ (λ f ws. parse_list_literal f ws) vs us (list_expr es) ts (λ f. refl)
          (reads_suc _
            (λ f ws.
              and_then
                (parse_elements f (check Token.rbracket (skip_newlines ws)) (skip_newlines ws))
                (behind f))
            us us (list_expr es) ts (λ f. refl)
            (reads_bind _ behind us (mark at Token.rbracket ∷ ts) es (list_expr es) ts
              (all_elements_read es p r ts) (record { fuel = 0; reads = λ f b. refl }))))

  all_pairs_read :
      (ps : Pairs D)
      → PairsParsable ps
      → PairsReadBack at ps
      → (ts : Tokens D)
      → Reads
          (λ f us. parse_pairs f (check Token.rbrace (skip_newlines us)) (skip_newlines us))
          (print_pairs at ps (mark at Token.rbrace ∷ ts))
          ps
          (mark at Token.rbrace ∷ ts)
  unfolding print parse_expression check skip_newlines Parsable
  all_pairs_read no_pairs p r ts =
      let us = mark at Token.rbrace ∷ ts in
      reads_suc _ (λ f vs. ok no_pairs vs) us us no_pairs us (λ f. refl)
        (record { fuel = 0; reads = λ f b. refl })
  all_pairs_read (and_pair k v ps) (p, q) r ts =
      let us = print_pairs at (and_pair k v ps) (mark at Token.rbrace ∷ ts) in
      let s = pairs-Starts k v ps (mark at Token.rbrace ∷ ts) p in
      reads_same _ (λ f. parse_pairs f false) us us (and_pair k v ps) (mark at Token.rbrace ∷ ts)
        (λ f. rw (s.no_newline, s.no_rbrace) refl) (pairs_reads at k v ps (p, q) r ts)

  dict-Atom : (ps : Pairs D) → PairsParsable ps → PairsReadBack at ps → Atom at (dict_expr ps)
  unfolding print parse_expression match_any consume and_then skip_newlines
  dict-Atom ps p r ts =
      let us = print_pairs at ps (mark at Token.rbrace ∷ ts) in
      let vs = mark at Token.lbrace ∷ us in
      let behind = λ (f : ℕ) (ps' : Pairs D) (rest : Tokens D).
        and_then (consume Token.rbrace (skip_newlines rest)) λ _ rest'. ok (dict_expr ps') rest' in
      reads_suc _ (λ f ws. primary_step f (some (dict, mark at Token.lbrace, us)) ws) vs vs
        (dict_expr ps) ts (λ f. refl)
        (reads_suc _ (λ f ws. parse_dict_literal f ws) vs vs (dict_expr ps) ts (λ f. refl)
          (reads_suc _
            (λ f ws.
              and_then (parse_pairs f (check Token.rbrace (skip_newlines ws)) (skip_newlines ws))
                (behind f))
            vs us (dict_expr ps) ts (λ f. refl)
            (reads_bind _ behind us (mark at Token.rbrace ∷ ts) ps (dict_expr ps) ts
              (all_pairs_read ps p r ts) (record { fuel = 0; reads = λ f b. refl }))))

  mutual
    unfolding print parse_expression match_any Parsable

    print-Atom : (e : Expr D) → Parsable e → Atom at e
    print-Atom (integer_literal n) p ts = literal_reads at _ _ ts (λ f. refl)
    print-Atom (float_literal x) p ts = literal_reads at _ _ ts (λ f. refl)
    print-Atom (string_literal s) p ts = literal_reads at _ _ ts (λ f. refl)
    print-Atom (bool_literal true) p ts = literal_reads at _ _ ts (λ f. refl)
    print-Atom (bool_literal false) p ts = literal_reads at _ _ ts (λ f. refl)
    print-Atom none_literal p ts = literal_reads at _ _ ts (λ f. refl)
    print-Atom (identifier name) p ts = literal_reads at _ _ ts (λ f. refl)
    print-Atom (binary_op op l r) (pl, pr) ts =
        binary-Atom at l r pl pr (print-Atom l pl) (print-Atom r pr) ts op
    print-Atom (unary_op neg e) p ts = unary-Atom at neg e p (print-Atom e p) ts refl
    print-Atom (unary_op not_op e) p ts = unary-Atom at not_op e p (print-Atom e p) ts refl
    print-Atom (call_expr e args) (p, ps) ts =
        call-Atom e args p ps (print-Atom e p) (all_read_back args ps) ts
    print-Atom (index_expr e i) (pe, pi) ts =
        index-Atom at e i pe pi (print-Atom e pe) (print-Atom i pi) ts
    print-Atom (member_expr e name) p ts = member-Atom at e name p (print-Atom e p) ts
    print-Atom (list_expr es) p ts = list-Atom es p (all_read_back es p) ts
    print-Atom (dict_expr ps) p ts = dict-Atom ps p (pairs_read_back ps p) ts
    print-Atom (initializer_expr name args) p ts =
        initializer-Atom name args p (named_read_back args p) ts
    print-Atom (some_expr e) p ts = absurd p
    print-Atom none_expr p ts = absurd p

    all_read_back : (es : Exprs D) → AllParsable es → AllReadBack at es
    all_read_back no_exprs p = tt
    all_read_back (and_expr e es) (p, ps) =
        (Atom-ReadsBack at e p (print-Atom e p), all_read_back es ps)

    pairs_read_back : (ps : Pairs D) → PairsParsable ps → PairsReadBack at ps
    pairs_read_back no_pairs p = tt
    pairs_read_back (and_pair k v ps) (pk, (pv, pp)) = (
      Atom-ReadsBack at k pk (print-Atom k pk),
      (Atom-ReadsBack at v pv (print-Atom v pv), pairs_read_back ps pp),
    )

    named_read_back : (args : NamedArgs D) → NamedParsable args → NamedReadBack at args
    named_read_back no_args p = absurd p
    named_read_back (and_arg name e no_args) p = (Atom-ReadsBack at e p (print-Atom e p), tt)
    named_read_back (and_arg name e (and_arg name' e' args)) (p, ps) =
        (Atom-ReadsBack at e p (print-Atom e p), named_read_back (and_arg name' e' args) ps)

-- An expression of the kinds that the parser makes, written as tokens with every operation in
-- parentheses, is read back by parse_expression, with enough fuel, where no operator follows; the tokens
-- that follow are left.
pub parse_expression-print :
    {D : Type 0} (at : SourceLocation) (e : Expr D) (ts : Tokens D)
    → Parsable e
    → Stops ts
    → Reads parse_expression (print at e ts) e ts
parse_expression-print at e ts p stops = Atom-ReadsBack at e p (print-Atom at e p) ts stops
