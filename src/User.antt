-- ===== src/User.antt =====
-- user/init.c and user/llmhelper.c: how a line of advice gets from the console to the kernel.
pub mod Line
pub mod Llmhelper
pub mod Router
pub mod Delivery
mod Tests
