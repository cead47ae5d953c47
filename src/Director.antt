-- ===== src/Director.antt =====
-- apps/companion/src/program-scenes/director.ts: which scene goes on air next, and when.
mod Types
mod Plan
mod Tick
mod Controller
mod Same
mod Steps
mod OneTake
mod Runs
mod Generations
mod OnAir
mod Tests
