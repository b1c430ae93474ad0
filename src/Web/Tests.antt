-- ===== src/Web/Tests.antt =====
-- Runs of kaguya-web on concrete stores, cookies and answers.
mod Toy
mod Calls
mod Served
mod Flight
