-- ===== src/Classes/Services.antt =====
-- services/: the use cases, over the repository interfaces.
pub mod ClassService
pub mod MemberInput
pub mod MemberService
pub mod ServantService
