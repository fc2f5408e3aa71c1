-- ===== src/Parser/Sequences.antt =====
-- How the functions of src/parser/parser.cpp read arguments, elements and pairs that are printed.
use aithon.Prelude.{ℕ, refl, false, ◌∷◌, Bytes}
use aithon.Ast.{
  Expr, Exprs, Pairs, NamedArgs, no_exprs, and_expr, no_pairs, and_pair, no_args, and_arg,
}
use aithon.Parser.{Tokens, ok, Parse, and_then, match, match_any, consume, skip_newlines}
use aithon.Parser.Expr.{
  parse_expression, parse_args, more_args, parse_named_args, more_named_args, parse_elements,
  more_elements, parse_pairs, more_pairs,
}
use aithon.Parser.Print.{
  mark, named, print, print_args, print_pairs, print_named, Parsable, AllParsable, PairsParsable,
  NamedParsable, print-Starts,
}
use aithon.Parser.Reads.{Reads, reads_suc, reads_same, reads_bind, Stops}
use aithon.Token as Token
use aithon.Token.{Token, SourceLocation}

module _ {D : Type 0} (at : SourceLocation) where
  pub Stops-rparen : (ts : Tokens D) → Stops (mark at Token.rparen ∷ ts)
  unfolding match_any
  Stops-rparen ts = (refl, (refl, (refl, (refl, (refl, (refl, (refl, refl)))))))

  pub Stops-rbracket : (ts : Tokens D) → Stops (mark at Token.rbracket ∷ ts)
  unfolding match_any
  Stops-rbracket ts = (refl, (refl, (refl, (refl, (refl, (refl, (refl, refl)))))))

  pub Stops-rbrace : (ts : Tokens D) → Stops (mark at Token.rbrace ∷ ts)
  unfolding match_any
  Stops-rbrace ts = (refl, (refl, (refl, (refl, (refl, (refl, (refl, refl)))))))

  pub Stops-comma : (ts : Tokens D) → Stops (mark at Token.comma ∷ ts)
  unfolding match_any
  Stops-comma ts = (refl, (refl, (refl, (refl, (refl, (refl, (refl, refl)))))))

  pub Stops-colon : (ts : Tokens D) → Stops (mark at Token.colon ∷ ts)
  unfolding match_any
  Stops-colon ts = (refl, (refl, (refl, (refl, (refl, (refl, (refl, refl)))))))

  -- The expression is read wherever it is printed before the end of an operand.
  abbrev pub ReadsBack : Expr D → Type 0
  ReadsBack e = (ts : Tokens D) → Stops ts → Reads parse_expression (print at e ts) e ts

  abbrev pub AllReadBack : Exprs D → Type 0
  AllReadBack no_exprs = Unit
  AllReadBack (and_expr e es) = ReadsBack e × AllReadBack es

  pub args_reads :
      (e : Expr D) (es : Exprs D)
      → AllReadBack (and_expr e es)
      → (ts : Tokens D)
      → Reads
          (λ f. parse_args f false)
          (print_args at (and_expr e es) (mark at Token.rparen ∷ ts))
          (and_expr e es)
          (mark at Token.rparen ∷ ts)
  unfolding parse_expression print and_then match
  args_reads e no_exprs (r, _) ts =
      reads_suc _
        (λ f us.
          and_then (parse_expression f us) λ e' rest. more_args f e' (match Token.comma rest) rest)
        _ _ _ _ (λ f. refl)
        (reads_bind _ (λ f e' rest. more_args f e' (match Token.comma rest) rest) _ _ e _ _
          (r _ (Stops-rparen ts))
          (reads_suc _ (λ f us. ok (and_expr e no_exprs) us) _ _ _ _ (λ f. refl)
            (record { fuel = 0; reads = λ f b. refl })))
  args_reads e (and_expr e' es) (r, rs) ts =
      let us = print_args at (and_expr e' es) (mark at Token.rparen ∷ ts) in
      reads_suc _
        (λ f us.
          and_then (parse_expression f us)
            λ e'' rest. more_args f e'' (match Token.comma rest) rest)
        _ _ _ _ (λ f. refl)
        (reads_bind _ (λ f e'' rest. more_args f e'' (match Token.comma rest) rest) _ _ e _ _
          (r _ (Stops-comma us))
          (reads_suc _
            (λ f vs. and_then (parse_args f false vs) λ es' rest. ok (and_expr e es') rest) _ us _ _
            (λ f. refl)
            (reads_bind _ (λ f es' rest. ok (and_expr e es') rest) us _ (and_expr e' es) _ _
              (args_reads e' es rs ts) (record { fuel = 0; reads = λ f b. refl }))))

  abbrev ok_reads : {A : Type 0} (a : A) (ts : Tokens D) → Reads (λ f us. ok a us) ts a ts
  ok_reads a ts = record { fuel = 0; reads = λ f b. refl }

  -- Elements of a list, where newlines may stand.
  pub elements_reads :
      (e : Expr D) (es : Exprs D)
      → AllParsable (and_expr e es)
      → AllReadBack (and_expr e es)
      → (ts : Tokens D)
      → Reads
          (λ f. parse_elements f false)
          (print_args at (and_expr e es) (mark at Token.rbracket ∷ ts))
          (and_expr e es)
          (mark at Token.rbracket ∷ ts)
  unfolding parse_expression print and_then match skip_newlines Parsable
  elements_reads e no_exprs (p, _) (r, _) ts =
      let us = mark at Token.rbracket ∷ ts in
      reads_suc _
        (λ f vs. and_then (parse_expression f vs) λ e' rest.
          more_elements f e' (match Token.comma (skip_newlines rest)) (skip_newlines rest))
        _ (print at e us) (and_expr e no_exprs) us
        (λ f. rw ((print-Starts at e us p).no_newline) refl)
        (reads_bind _
          (λ f e' rest.
            more_elements f e' (match Token.comma (skip_newlines rest)) (skip_newlines rest))
          _ _ e _ _ (r _ (Stops-rbracket ts))
          (reads_suc _ (λ f vs. ok (and_expr e no_exprs) vs) _ us _ _ (λ f. refl) (ok_reads _ us)))
  elements_reads e (and_expr e' es) (p, ps) (r, rs) ts =
      let us = print_args at (and_expr e' es) (mark at Token.rbracket ∷ ts) in
      reads_suc _
        (λ f vs. and_then (parse_expression f vs) λ e'' rest.
          more_elements f e'' (match Token.comma (skip_newlines rest)) (skip_newlines rest))
        _ (print at e (mark at Token.comma ∷ us)) (and_expr e (and_expr e' es))
        (mark at Token.rbracket ∷ ts)
        (λ f. rw ((print-Starts at e (mark at Token.comma ∷ us) p).no_newline) refl)
        (reads_bind _
          (λ f e'' rest.
            more_elements f e'' (match Token.comma (skip_newlines rest)) (skip_newlines rest))
          _ _ e _ _ (r _ (Stops-comma us))
          (reads_suc _
            (λ f vs. and_then (parse_elements f false vs) λ es' rest. ok (and_expr e es') rest) _ us
            _ _ (λ f. refl)
            (reads_bind _ (λ f es' rest. ok (and_expr e es') rest) us _ (and_expr e' es) _ _
              (elements_reads e' es ps rs ts) (ok_reads _ _))))

  abbrev pub PairsReadBack : Pairs D → Type 0
  PairsReadBack no_pairs = Unit
  PairsReadBack (and_pair k v ps) = ReadsBack k × (ReadsBack v × PairsReadBack ps)

  abbrev pair_end : Expr D → ℕ → Expr D → Parse D (Pairs D)
  pair_end k f v rest =
      more_pairs f k v (match Token.comma (skip_newlines rest)) (skip_newlines rest)

  abbrev pair_value : ℕ → Expr D → Parse D (Pairs D)
  pair_value f k rest =
      and_then (consume Token.colon rest)
        λ _ rest'. and_then (parse_expression f rest') (pair_end k f)

  -- A key, its value, and what follows them.
  pair_reads :
      (k v : Expr D) (ps : Pairs D) (us rest : Tokens D)
      → Parsable k
      → ReadsBack k
      → ReadsBack v
      → Stops us
      → Reads (λ f. pair_end k f v) us (and_pair k v ps) rest
      → Reads
          (λ f. parse_pairs f false)
          (print at k (mark at Token.colon ∷ print at v us))
          (and_pair k v ps)
          rest
  unfolding parse_expression print and_then match consume skip_newlines Parsable
  pair_reads k v ps us rest pk rk rv stops after =
      let vs = mark at Token.colon ∷ print at v us in
      reads_suc _ (λ f ws. and_then (parse_expression f ws) (pair_value f)) _ (print at k vs)
        (and_pair k v ps) rest (λ f. rw ((print-Starts at k vs pk).no_newline) refl)
        (reads_bind _ pair_value _ vs k _ _ (rk vs (Stops-colon (print at v us))) (
          reads_same _ (λ f ws. and_then (parse_expression f ws) (pair_end k f)) vs (print at v us)
            _ _ (λ f. refl)
            (reads_bind _ (pair_end k) (print at v us) us v _ _ (rv us stops) after)))

  pub pairs_reads :
      (k v : Expr D) (ps : Pairs D)
      → PairsParsable (and_pair k v ps)
      → PairsReadBack (and_pair k v ps)
      → (ts : Tokens D)
      → Reads
          (λ f. parse_pairs f false)
          (print_pairs at (and_pair k v ps) (mark at Token.rbrace ∷ ts))
          (and_pair k v ps)
          (mark at Token.rbrace ∷ ts)
  unfolding parse_expression print and_then match consume skip_newlines Parsable
  pairs_reads k v no_pairs (pk, (pv, _)) (rk, (rv, _)) ts =
      let us = mark at Token.rbrace ∷ ts in
      pair_reads k v no_pairs us us pk rk rv (Stops-rbrace ts)
        (reads_suc _ (λ f vs. ok (and_pair k v no_pairs) vs) _ us _ _ (λ f. refl) (ok_reads _ us))
  pairs_reads k v (and_pair k' v' ps) (pk, (pv, pp)) (rk, (rv, rp)) ts =
      let us = print_pairs at (and_pair k' v' ps) (mark at Token.rbrace ∷ ts) in
      pair_reads k v (and_pair k' v' ps) (mark at Token.comma ∷ us) (mark at Token.rbrace ∷ ts) pk
        rk rv (Stops-comma us)
        (reads_suc _
          (λ f vs. and_then (parse_pairs f false vs) λ ps' rest. ok (and_pair k v ps') rest) _ us _
          _ (λ f. refl)
          (reads_bind _ (λ f ps' rest. ok (and_pair k v ps') rest) us _ (and_pair k' v' ps) _ _
            (pairs_reads k' v' ps pp rp ts) (ok_reads _ _)))

  abbrev pub NamedReadBack : NamedArgs D → Type 0
  NamedReadBack no_args = Unit
  NamedReadBack (and_arg name e args) = ReadsBack e × NamedReadBack args

  abbrev arg_end : Bytes → ℕ → Expr D → Parse D (NamedArgs D)
  arg_end name f e rest = more_named_args f name e (match Token.comma rest) rest

  arg_reads :
      (name : Bytes) (e : Expr D) (args : NamedArgs D) (us rest : Tokens D)
      → ReadsBack e
      → Stops us
      → Reads (λ f. arg_end name f e) us (and_arg name e args) rest
      → Reads parse_named_args
          (named at name ∷ mark at Token.colon ∷ print at e us)
          (and_arg name e args)
          rest
  unfolding parse_expression print and_then match consume
  arg_reads name e args us rest re stops after =
      reads_suc _ (λ f ws. and_then (parse_expression f ws) (arg_end name f)) _ (print at e us)
        (and_arg name e args) rest (λ f. refl)
        (reads_bind _ (arg_end name) (print at e us) us e _ _ (re us stops) after)

  pub named_reads :
      (args : NamedArgs D)
      → NamedParsable args
      → NamedReadBack args
      → (ts : Tokens D)
      → Reads parse_named_args
          (print_named at args (mark at Token.rparen ∷ ts))
          args
          (mark at Token.rparen ∷ ts)
  unfolding parse_expression print and_then match consume Parsable
  named_reads no_args p r ts = absurd p
  named_reads (and_arg name e no_args) p (r, _) ts =
      let us = mark at Token.rparen ∷ ts in
      arg_reads name e no_args us us r (Stops-rparen ts)
        (reads_suc _ (λ f vs. ok (and_arg name e no_args) vs) _ us _ _ (λ f. refl) (ok_reads _ us))
  named_reads (and_arg name e (and_arg name' e' args)) (p, ps) (r, rs) ts =
      let us = print_named at (and_arg name' e' args) (mark at Token.rparen ∷ ts) in
      arg_reads name e (and_arg name' e' args) (mark at Token.comma ∷ us)
        (mark at Token.rparen ∷ ts) r (Stops-comma us)
        (reads_suc _
          (λ f vs. and_then (parse_named_args f vs) λ args' rest. ok (and_arg name e args') rest) _
          us _ _ (λ f. refl)
          (reads_bind _ (λ f args' rest. ok (and_arg name e args') rest) us _
            (and_arg name' e' args) _ _ (named_reads (and_arg name' e' args) ps rs ts)
            (ok_reads _ _)))
