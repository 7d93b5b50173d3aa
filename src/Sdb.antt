-- ===== src/Sdb.antt =====
-- src/monitor/sdb: the debugger's expressions and commands.
pub mod Outcome
pub mod Token
pub mod TokenStep
pub mod TokenLaws
pub mod Eval
pub mod EvalEnds
pub mod EvalKeeps
pub mod ExprKeeps
pub mod ChainLaws
pub mod ExprLaws
pub mod Command
pub mod CommandLaws
pub mod ContinueLaws
pub mod RunKeeps
pub mod SessionKeeps
pub mod Watchpoint
