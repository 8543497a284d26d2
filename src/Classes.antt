-- ===== src/Classes.antt =====
-- modules/classes/: classes, their members and their servants. The domain model, the repository
-- interfaces, the services over them, the Prisma repositories and the controllers.
pub mod Level
pub mod Entities
pub mod Interfaces
pub mod Services
pub mod Repositories
pub mod Controllers
