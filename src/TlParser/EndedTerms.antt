-- ===== src/TlParser/EndedTerms.antt =====
-- tl_parser/src/lib.rs: the terms leave an end of their input.
use tonlibjson.Prelude.{ℕ, zero, suc}
use tonlibjson.TlParser.Text.{Text}
use tonlibjson.TlParser.Nom.{Parser, Nom}
use tonlibjson.TlParser.Grammar.{Numbers, var_ident_opt}
use tonlibjson.TlParser.Declaration.{
  spaces, constant, sum, subexpr_of, expr_of, term_of, term, subexpr, type_expr, type_term,
}
use tonlibjson.TlParser.Ends.{
  IsEnding, TakesFront, space_or_comment-IsEnding, var_ident-IsEnding, var_ident_opt-IsEnding,
  nat_const-IsEnding, type_ident-IsEnding,
}

module _ {E : Type 0} (nom : Nom E) (front : TakesFront nom) (numbers : Numbers)
    (fail no_fuel : E) where
  pub spaces-IsEnding : IsEnding (spaces nom numbers fail no_fuel)
  spaces-IsEnding = space_or_comment-IsEnding nom front numbers fail no_fuel

  pub var-IsEnding : IsEnding (var_ident_opt nom numbers fail no_fuel)
  var-IsEnding = var_ident_opt-IsEnding nom front numbers fail no_fuel

  constant-IsEnding : IsEnding (constant nom numbers fail no_fuel)
  constant-IsEnding = front.map_ends (nat_const-IsEnding nom front numbers fail no_fuel)

  module _ (term : Parser E Text) (h : IsEnding term) where
    sum-IsEnding : IsEnding (sum nom numbers fail no_fuel term)
    sum-IsEnding =
        front.separated_pair_ends (front.alt_ends (h, (constant-IsEnding, tt)))
          (front.map_ends front.tag_ends) (front.alt_ends (h, (constant-IsEnding, tt)))

    subexpr_of-IsEnding : IsEnding (subexpr_of nom numbers fail no_fuel term)
    unfolding subexpr_of
    subexpr_of-IsEnding =
        front.alt_ends (h, (front.map_ends (front.many1_ends (front.map_ends sum-IsEnding)), tt))

    expr_of-IsEnding : IsEnding (expr_of nom numbers fail no_fuel term)
    unfolding expr_of
    expr_of-IsEnding =
        front.map_ends (front.separated_list1_ends front.tag_ends subexpr_of-IsEnding)

    term_of-IsEnding : IsEnding (term_of nom numbers fail no_fuel term)
    unfolding term_of
    term_of-IsEnding =
        let ident = type_ident-IsEnding nom front numbers fail no_fuel in
        front.alt_ends (
          front.delimited_ends front.tag_ends expr_of-IsEnding front.tag_ends,
          (
            front.map_ends (
                front.recognize_ends (
                  front.pair_ends ident (
                    front.delimited_ends front.tag_ends
                      (front.separated_list1_ends front.tag_ends ident) front.tag_ends))),
            (
              ident,
              (
                var_ident-IsEnding nom front numbers fail no_fuel,
                (constant-IsEnding, (front.preceded_ends front.tag_ends h, tt)),
              ),
            ),
          ),
        )

  pub term-IsEnding : (n : ℕ) → IsEnding (term nom numbers fail no_fuel n)
  unfolding term
  term-IsEnding zero = record { ends = λ s. tt }
  term-IsEnding (suc n) = record {
    ends = λ s. (term_of-IsEnding (term nom numbers fail no_fuel n) (term-IsEnding n)).ends s;
  }

  pub type_expr-IsEnding : (n : ℕ) → IsEnding (type_expr nom numbers fail no_fuel n)
  unfolding type_expr
  type_expr-IsEnding n = expr_of-IsEnding (term nom numbers fail no_fuel n) (term-IsEnding n)

  pub type_term-IsEnding : (n : ℕ) → IsEnding (type_term nom numbers fail no_fuel n)
  unfolding type_term
  type_term-IsEnding n =
      front.pair_ends (front.map_ends (front.opt_ends front.tag_ends)) (term-IsEnding n)

  pub subexpr-IsEnding : (n : ℕ) → IsEnding (subexpr nom numbers fail no_fuel n)
  unfolding subexpr
  subexpr-IsEnding n = subexpr_of-IsEnding (term nom numbers fail no_fuel n) (term-IsEnding n)
