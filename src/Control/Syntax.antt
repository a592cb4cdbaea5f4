-- ===== src/Control/Syntax.antt =====
-- internal/extensions/procedures/control/parse.go: the statements.
use haystak_tds_spi.Base.{Bool, List, Bytes}

-- `declVar`
pub record DeclVar : Type 0 where
  pub name : Bytes
  pub typ : Bytes
  pub init : Bytes

-- `Stmt`, with a constructor for each of its types; an `If` has an else branch or none
mutual
  pub data Stmt : Type 0 where
    block : Stmts → Stmt
    raw : Bytes → Stmt
    declare : List DeclVar → Stmt
    set : Bytes → Bytes → Stmt
    print : Bytes → Stmt
    returns breaks continues : Stmt
    if_then : Bytes → Stmt → Stmt
    if_else : Bytes → Stmt → Stmt → Stmt
    while : Bytes → Stmt → Stmt
    try : Stmts → Stmts → Stmt
    throw : Bytes → Stmt
    raiserror : Bytes → Stmt
    waitfor : Bool → Bytes → Stmt

  pub data Stmts : Type 0 where
    done : Stmts
    and_then : Stmt → Stmts → Stmts
